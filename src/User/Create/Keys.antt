-- ===== src/User/Create/Keys.antt =====
-- The keys that the creation of a user deals with, and what the code relies on around it.
use s3_operator.Prelude.{
  ℕ, String, Bool, true, ◌&&◌, ◌==◌, ◌≡◌, Option, none, some, List, if◌then◌else◌,
}
use s3_operator.Effect.Post.{OnOk, Post}
use s3_operator.Effect.Leaves.{Leaves}
use s3_operator.Api.{S3User, Secret, NamespacedName}
use s3_operator.S3.{S3Config, S3Client}
use s3_operator.S3.Backend.{put}
use s3_operator.Cluster.{Reconciler}
use s3_operator.User.Secrets.{secret_name_of}
use s3_operator.User.Create.Content.{value_at}

-- The keys of a cluster and its backend: the secrets that the API server has, and the secret key of
-- each user of the backend.
pub record Keys : Type 0 where
  pub secret_at : NamespacedName → Option Secret
  pub secret_key_of : String → Option String

abbrev pub with_key : String → String → Keys → Keys
with_key n t k = record k { secret_key_of = put n (some t) k.secret_key_of }

abbrev pub store : Secret → Keys → Keys
store s k = record k {
  secret_at = λ j. if s.namespace == j.namespace && s.name == j.name then some s else k.secret_at j;
}

-- What the two calls of a client do to the keys.
pub record IsKeyed {W : Type 0} (keys : W → Keys) (c : S3Client W) : Type 0 where
  pub create_user_lem :
      (n t : String) (w : W)
      → Post (OnOk (λ _ v. keys v ≡ with_key n t (keys w))) (c.create_user n t) w
  pub add_policies_to_user_lem :
      (n : String) (ps : List String) → Leaves keys (c.add_policies_to_user n ps)

-- What the code relies on around it: the API server keeps a secret that it has taken, and no other
-- call changes the keys.
pub record IsKeeping {W : Type 0} (keys : W → Keys) (r : Reconciler W) : Type 0 where
  pub get_instance_lem : (k : NamespacedName) → Leaves keys (r.s3_instances.get k)
  pub get_secret_lem : (k : NamespacedName) → Leaves keys (r.secrets.get k)
  pub found_secret_lem :
      (k : NamespacedName) (w : W)
      → Post (OnOk (λ s v. (keys v).secret_at k ≡ some s)) (r.secrets.get k) w
  pub create_secret_lem :
      (s : Secret) (w : W) → Post (OnOk (λ _ v. keys v ≡ store s (keys w))) (r.secrets.create s) w
  pub update_secret_lem :
      (s : Secret) (w : W) → Post (OnOk (λ _ v. keys v ≡ store s (keys w))) (r.secrets.update s) w
  pub generate_leaves_lem :
      (p : String) (g : S3Config) → Leaves keys (r.s3_factory.generate_s3_client p g)
  pub generate_lem :
      (p : String) (g : S3Config) (w : W)
      → Post (OnOk (λ c _. IsKeyed keys c)) (r.s3_factory.generate_s3_client p g) w
  pub report_lem : (o : S3User) → Leaves keys (r.s3_users.update_status o)
  pub rand_int_lem : (m : ℕ) → Leaves keys (r.rand_int m)

-- Where a user's secret is.
abbrev pub place_of : S3User → NamespacedName
place_of user = record { namespace = user.namespace; name = secret_name_of user }

-- The secret key of the user is the one in the secret. An existing secret that is read may have
-- another access key, or lack the field.
pub data Kept (reads : Bool) (user : S3User) (k : Keys) : Type 0 where
  written :
      (secret : Secret) (key : String)
      → k.secret_at (place_of user) ≡ some secret
      → value_at user.spec.secret_field_name_access_key secret.content ≡ some user.spec.access_key
      → value_at user.spec.secret_field_name_secret_key secret.content ≡ some key
      → k.secret_key_of user.spec.access_key ≡ some key
      → Kept reads user k
  read :
      (existing : Secret) (key : String)
      → reads ≡ true
      → k.secret_at (place_of user) ≡ some existing
      → value_at user.spec.secret_field_name_secret_key existing.content ≡ some key
      → k.secret_key_of user.spec.access_key ≡ some key
      → Kept reads user k
  lacking :
      (existing : Secret)
      → reads ≡ true
      → k.secret_at (place_of user) ≡ some existing
      → value_at user.spec.secret_field_name_secret_key existing.content ≡ none
      → Kept reads user k
