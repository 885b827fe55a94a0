-- ===== src/S3/Minio/Server.antt =====
-- What the client of MinIO relies on in the server and in the libraries that reach it: what a call
-- without an error has done, and what the error codes mean that the client looks for. `server`
-- reads what the server holds out of the world, and `canonical` is the key under which it keeps an
-- object.
use mathlib.Core.Option
use s3_operator.Prelude.{
  String, ◌++◌, ℕ, Bool, true, false, not, ◌&&◌, ◌||◌, ◌==◌, ◌=ℕ◌, ◌≡◌, Option, none, some, is_some,
  List, contains, All,
}
use s3_operator.Effect.{ok}
use s3_operator.Effect.Post.{OnOk, Either, Post}
use s3_operator.Effect.Leaves.{Leaves}
use s3_operator.Text.{trim_space, join}
use s3_operator.Text.Split.{Lacks}
use s3_operator.S3.Backend.{Backend, StoredPolicy, put, put₂}
use s3_operator.S3.Minio.Sdk.{MinioClient, AdminClient, BucketQuota, Options, Libraries}
use s3_operator.S3.Minio.Quota.{int64_of}

-- What a MinIO server holds, of what the operator works on. Quotas are as the server keeps them,
-- and objects are by bucket and canonical key.
pub record ServerState : Type 0 where
  pub has_bucket : String → Bool
  pub quota_of : String → ℕ
  pub has_object : String → String → Bool
  pub policy_of : String → Option StoredPolicy
  pub secret_key_of : String → Option String
  pub user_has : String → String → Bool

-- The same as the controllers see it: a path is its object `.keep`, and a quota is an int64.
abbrev pub backend_of : (String → String) → ServerState → Backend
backend_of canonical s = record {
  has_bucket = s.has_bucket;
  quota_of = λ n. int64_of (s.quota_of n);
  has_path = λ b p. s.has_object b (canonical (p ++ "/.keep"));
  policy_of = s.policy_of;
  secret_key_of = s.secret_key_of;
  user_has = s.user_has;
}

-- A name of a policy: it is not empty and has no comma.
abbrev pub IsName : String → Type 0
IsName p = ((p == "") ≡ false) × Lacks p b','

-- The text in which the server lists the policies that `has` tells.
abbrev pub Lists : (String → Bool) → String → Type 0
Lists has text =
    (ps : List String) × (trim_space text ≡ join ps ",")
    × All IsName ps
    × ((p : String) → contains ps p ≡ has p)

module _ {W : Type 0} (server : W → ServerState) where
  abbrev pub Keeps : W → W → Type 0
  Keeps w w' = server w' ≡ server w

  -- A call without an error answers as `f` says, and changes nothing.
  abbrev pub Tells : {A : Type 0} → (ServerState → A → Type 0) → W → A → W → Type 0
  Tells f w a w' = f (server w) a × Keeps w w'

  -- A call without an error changes the server by `f`.
  abbrev pub Turns : {A : Type 0} → (ServerState → ServerState) → W → A → W → Type 0
  Turns f w _ w' = server w' ≡ f (server w)

  -- The object calls go by the canonical key. RemoveBucket takes along what was kept of the bucket.
  pub record IsServing (canonical : String → String) (c : MinioClient W) : Type 0 where
    pub bucket_exists_lem :
        (n : String) (w : W)
        → Post (OnOk (Tells (λ s found. found ≡ s.has_bucket n) w)) (c.bucket_exists n) w
    pub make_bucket_lem :
        (n region : String) (w : W)
        → Post
            (OnOk (Turns (λ s. record s { has_bucket = put n true s.has_bucket }) w))
            (c.make_bucket n region)
            w
    pub list_buckets_lem : Leaves server c.list_buckets
    pub remove_bucket_lem :
        (n : String) (w : W)
        → Post
            (OnOk (λ _ w'.
              ((server w').has_bucket ≡ put n false (server w).has_bucket)
              × ((m : String)
                  → (n == m) ≡ false
                  → ((server w').quota_of m ≡ (server w).quota_of m)
                    × ((server w').has_object m ≡ (server w).has_object m))
              × (server w' ≡ record (server w) {
                has_bucket = (server w').has_bucket;
                quota_of = (server w').quota_of;
                has_object = (server w').has_object;
              })))
            (c.remove_bucket n)
            w
    pub put_object_lem :
        (b key content : String) (w : W)
        → Post
            (OnOk
              (Turns (λ s. record s { has_object = put₂ b (canonical key) true s.has_object }) w))
            (c.put_object b key content)
            w
    -- The status 404 is that there is no such object.
    pub stat_object_lem :
        (b key : String) (w : W)
        → Post
            (Either
              (Tells (λ s _. s.has_object b (canonical key) ≡ true) w)
              (λ e. e.status_code =ℕ 404)
              (Tells (λ s w'. s.has_object b (canonical key) ≡ false) w tt))
            (c.stat_object b key)
            w
    pub remove_object_lem :
        (b key : String) (w : W)
        → Post
            (OnOk
              (Turns (λ s. record s { has_object = put₂ b (canonical key) false s.has_object }) w))
            (c.remove_object b key)
            w

  pub record IsAdministering (c : AdminClient W) : Type 0 where
    pub get_bucket_quota_lem :
        (n : String) (w : W)
        → Post (OnOk (Tells (λ s q. q.size ≡ s.quota_of n) w)) (c.get_bucket_quota n) w
    pub set_bucket_quota_lem :
        (n : String) (q : BucketQuota) (w : W)
        → Post
            (OnOk (Turns (λ s. record s { quota_of = put n q.size s.quota_of }) w))
            (c.set_bucket_quota n q)
            w
    pub info_canned_policy_lem :
        (n : String) (w : W)
        → Post
            (Either
              (Tells (λ s p. Option.map (λ q. q.text) (s.policy_of n) ≡ some p.policy) w)
              (λ e. e.code == "XMinioAdminNoSuchPolicy")
              (Tells (λ s _. s.policy_of n ≡ none) w tt))
            (c.info_canned_policy n)
            w
    -- The server keeps a policy that the text denotes, not the text itself.
    pub add_canned_policy_lem :
        (n t : String) (w : W)
        → Post
            (OnOk (λ _ w'.
              (q : StoredPolicy) × (q.denotes t ≡ true)
              × (server w'
                  ≡ record (server w) { policy_of = put n (some q) (server w).policy_of })))
            (c.add_canned_policy n t)
            w
    pub remove_canned_policy_lem :
        (n : String) (w : W)
        → Post
            (OnOk (Turns (λ s. record s { policy_of = put n none s.policy_of }) w))
            (c.remove_canned_policy n)
            w
    pub add_user_lem :
        (n k : String) (w : W)
        → Post
            (OnOk (Turns (λ s. record s { secret_key_of = put n (some k) s.secret_key_of }) w))
            (c.add_user n k)
            w
    pub get_user_info_lem :
        (n : String) (w : W)
        → Post
            (Either
              (Tells
                (λ s u. (is_some (s.secret_key_of n) ≡ true) × Lists (s.user_has n) u.policy_name)
                w)
              (λ e. e.code == "XMinioAdminNoSuchUser")
              (Tells (λ s _. s.secret_key_of n ≡ none) w tt))
            (c.get_user_info n)
            w
    -- RemoveUser may take the user's policies along.
    pub remove_user_lem :
        (n : String) (w : W)
        → Post
            (Either
              (λ _ w'.
                ((server w').secret_key_of ≡ put n none (server w).secret_key_of)
                × ((m : String) → (n == m) ≡ false → (server w').user_has m ≡ (server w).user_has m)
                × (server w' ≡ record (server w) {
                  secret_key_of = (server w').secret_key_of;
                  user_has = (server w').user_has;
                }))
              (λ e. e.code == "XMinioAdminNoSuchUser")
              (Tells (λ s _. s.secret_key_of n ≡ none) w tt))
            (c.remove_user n)
            w
    -- A change that is applied already is an error with a code of its own.
    pub attach_policy_lem :
        (n : String) (ps : List String) (w : W)
        → Post
            (Either
              (Turns
                (λ s. record s {
                  user_has = put n (λ p. s.user_has n p || contains ps p) s.user_has;
                })
                w)
              (λ e. e.code == "XMinioAdminPolicyChangeAlreadyApplied")
              (Tells (λ s _. (p : String) → contains ps p ≡ true → s.user_has n p ≡ true) w tt))
            (c.attach_policy (record { policies = ps; user = n }))
            w
    pub detach_policy_lem :
        (n : String) (ps : List String) (w : W)
        → Post
            (Either
              (Turns
                (λ s. record s {
                  user_has = put n (λ p. s.user_has n p && not (contains ps p)) s.user_has;
                })
                w)
              (λ e. e.code == "XMinioAdminPolicyChangeAlreadyApplied")
              (Tells (λ s _. (p : String) → contains ps p ≡ true → s.user_has n p ≡ false) w tt))
            (c.detach_policy (record { policies = ps; user = n }))
            w

  -- The clients that the libraries make for an endpoint work on the server, whatever the keys. A
  -- key that begins with a slash is kept without it.
  pub record IsSdk (canonical : String → String) (endpoint : String) {P : Type 0}
      (sdk : Libraries W P) : Type 0 where
    pub canonical_lem : (key : String) → canonical ("/" ++ key) ≡ canonical key
    pub new_client_lem :
        (o : Options P) (c : MinioClient W)
        → sdk.new_client endpoint o ≡ ok c
        → IsServing canonical c
    pub new_admin_client_lem :
        (o : Options P) (c : AdminClient W)
        → sdk.new_admin_client endpoint o ≡ ok c
        → IsAdministering c
