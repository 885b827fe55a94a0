-- ===== src/Bucket/Guard.antt =====
-- The promise of the bucket controller's finalizer (internal/controller/bucket/constants.go): a
-- bucket that the operator has made on the backend is guarded, that is, a Bucket object names it
-- and has the finalizer, so that the object cannot go away before the bucket does.
pub mod Calls
pub mod Handlers
pub mod Writes
pub mod Serves
use s3_operator.Prelude.{
  String, Bool, true, false, ◌&&◌, ◌==◌, ◌≡◌, ◌⊎◌, Option, none, some, List, [], ℤ, if◌then◌else◌,
}
use s3_operator.Effect.{Eff}
use s3_operator.Effect.Post.{OnOk, Post}
use s3_operator.Api.{Bucket, BucketSpec, NamespacedName, S3Instance, Secret}
use s3_operator.S3.{S3Config, S3Client}
use s3_operator.S3.Backend.{put}
use s3_operator.Cluster.{Machinery, Reconciler}
use s3_operator.Helpers.Client.{config_of}
use s3_operator.Bucket.{bucket_finalizer}

-- What the API server keeps of a Bucket besides its status.
pub record Stored : Type 0 where
  pub spec : BucketSpec
  pub finalizers : List String

-- The Bucket objects of the API server, and the buckets of the backend.
pub record Site : Type 0 where
  pub objects : NamespacedName → Option Stored
  pub buckets : String → Bool

abbrev pub stored_of : Bucket → Stored
stored_of b = record { spec = b.spec; finalizers = b.finalizers }

abbrev pub key_of : Bucket → NamespacedName
key_of b = record { namespace = b.namespace; name = b.name }

abbrev pub same_key : NamespacedName → NamespacedName → Bool
same_key j k = j.namespace == k.namespace && j.name == k.name

abbrev pub write_object : NamespacedName → Option Stored → Site → Site
write_object k o s = record s { objects = λ j. if same_key k j then o else s.objects j }

abbrev pub write_bucket : String → Bool → Site → Site
write_bucket n there s = record s { buckets = put n there s.buckets }

module _ (machinery : Machinery) where
  -- An object names the bucket and has the finalizer.
  abbrev pub Guards : Site → String → Type 0
  Guards s n =
      (k : NamespacedName) × ((o : Stored) × (s.objects k ≡ some o)
        × (o.spec.name ≡ n)
        × (machinery.contains_finalizer o.finalizers bucket_finalizer ≡ true))

  -- The buckets that are there were there before, or are guarded.
  abbrev pub Guarded : (String → Bool) → Site → Type 0
  Guarded before s = (n : String) → s.buckets n ≡ true → (before n ≡ true) ⊎ Guards s n

-- What a write of an object does, however it ends: nothing, or it is stored, or an object that is
-- left without a finalizer goes away.
abbrev pub Updates : Bucket → Site → Site → Type 0
Updates b s t =
    (t ≡ s)
    ⊎ ((t ≡ write_object (key_of b) (some (stored_of b)) s)
        ⊎ ((b.finalizers ≡ []) × (t ≡ write_object (key_of b) none s)))

module _ {W : Type 0} (site : W → Site) where
  -- The call changes neither an object nor the buckets, however it ends.
  abbrev pub Fixes : {A : Type 0} → Eff W A → Type 0
  Fixes m = (w : W) → site (m w).1 ≡ site w

  -- A client's calls on buckets do what they say or nothing, however they end; and deletion is
  -- enabled.
  pub record IsOrderly (c : S3Client W) : Type 0 where
    pub bucket_exists_lem : (n : String) → Fixes (c.bucket_exists n)
    pub create_bucket_lem :
        (n : String) (w : W)
        → (site (c.create_bucket n w).1 ≡ site w)
          ⊎ (site (c.create_bucket n w).1 ≡ write_bucket n true (site w))
    pub delete_bucket_lem :
        (n : String) (w : W)
        → (site (c.delete_bucket n w).1 ≡ site w)
          ⊎ (site (c.delete_bucket n w).1 ≡ write_bucket n false (site w))
    pub deleted_bucket_lem :
        (n : String) (w : W) → Post (OnOk (λ _ v. (site v).buckets n ≡ false)) (c.delete_bucket n) w
    pub get_quota_lem : (n : String) → Fixes (c.get_quota n)
    pub set_quota_lem : (n : String) (q : ℤ) → Fixes (c.set_quota n q)
    pub create_path_lem : (n p : String) → Fixes (c.create_path n p)
    pub path_exists_lem : (n p : String) → Fixes (c.path_exists n p)
    pub deletion_enabled : c.get_config.bucket_deletion_enabled ≡ true

  -- What the controller relies on in the API server, in controllerutil and in the factory, for the
  -- instances of which `I` holds.
  pub record IsGuarding (I : S3Instance → Type 0) (r : Reconciler W) : Type 0 where
    pub get_instance_lem : (k : NamespacedName) → Fixes (r.s3_instances.get k)
    pub get_secret_lem : (k : NamespacedName) → Fixes (r.secrets.get k)
    pub generate_lem : (p : String) (g : S3Config) → Fixes (r.s3_factory.generate_s3_client p g)
    pub served_lem :
        (k : NamespacedName) (w : W) → Post (OnOk (λ i _. I i)) (r.s3_instances.get k) w
    pub orderly_lem :
        (i : S3Instance) (secret : Secret) (certificates : List String) (w : W)
        → I i
        → Post
            (OnOk (λ c _. IsOrderly c))
            (r.s3_factory.generate_s3_client i.spec.s3_provider (config_of i secret certificates))
            w
    pub get_lem : (k : NamespacedName) → Fixes (r.buckets.get k)
    pub got_lem :
        (k : NamespacedName) (w : W)
        → Post
            (OnOk (λ b v. (key_of b ≡ k) × ((site v).objects k ≡ some (stored_of b))))
            (r.buckets.get k)
            w
    pub update_status_lem : (b : Bucket) → Fixes (r.buckets.update_status b)
    pub update_lem : (b : Bucket) (w : W) → Updates b (site w) (site (r.buckets.update b w).1)
    pub updated_lem :
        (b : Bucket) (w : W)
        → Post
            (λ x v.
              x.1 ≡ none → ((site v).objects (key_of b) ≡ some (stored_of b)) ⊎ (b.finalizers ≡ []))
            (r.buckets.update b)
            w
    pub added_lem :
        (fs : List String) (f : String)
        → r.machinery.contains_finalizer (r.machinery.add_finalizer fs f).0 f ≡ true
    pub none_lem : (f : String) → r.machinery.contains_finalizer [] f ≡ false
