-- ===== src/S3/Laws.antt =====
-- What the controllers rely on in an S3 client: a call that reports success has had its documented
-- effect on the backend and no other, and a query reports what is there. Of a call that fails
-- nothing is asked. `view` reads the backend out of the world.
use mathlib.Core.Option
use s3_operator.Prelude.{String, ◌≡◌, none, some, is_some, List, contains, ℤ, IsInt64}
use s3_operator.Effect.Post.{OnOk, Post}
use s3_operator.S3.{S3Client, PolicyInfo}
use s3_operator.S3.Backend.{
  Backend, add_bucket, BucketRemoved, with_quota, PathAdded, PathRemoved, UserRemoved, with_policy,
  StoredPolicy, PolicyWritten, with_user, attach, detach,
}

abbrev pub info_of : StoredPolicy → PolicyInfo
info_of stored = record { policy = stored.text }

module _ {W : Type 0} (view : W → Backend) where
  -- The answer is what the view shows, and the view stays.
  abbrev pub Reads : {A : Type 0} → (Backend → A) → W → A → W → Type 0
  Reads f w a w' = (a ≡ f (view w)) × (view w' ≡ view w)

  -- The view is changed by `f`.
  abbrev pub Writes : {A : Type 0} → (Backend → Backend) → W → A → W → Type 0
  Writes f w _ w' = view w' ≡ f (view w)

  -- The view is changed as `P` says.
  abbrev pub Changes : {A : Type 0} → (Backend → Backend → Type 0) → W → A → W → Type 0
  Changes P w _ w' = P (view w) (view w')

  pub record IsLawful (c : S3Client W) : Type 0 where
    pub bucket_exists_lem :
        (n : String) (w : W) → Post (OnOk (Reads (λ s. s.has_bucket n) w)) (c.bucket_exists n) w
    pub create_bucket_lem :
        (n : String) (w : W) → Post (OnOk (Writes (add_bucket n) w)) (c.create_bucket n) w
    pub delete_bucket_lem :
        (n : String) (w : W) → Post (OnOk (Changes (BucketRemoved n) w)) (c.delete_bucket n) w
    pub create_path_lem :
        (n p : String) (w : W) → Post (OnOk (Changes (PathAdded n p) w)) (c.create_path n p) w
    pub path_exists_lem :
        (n p : String) (w : W)
        → Post (λ a w'. a.1 ≡ none → Reads (λ s. s.has_path n p) w a.0 w') (c.path_exists n p) w
    pub delete_path_lem :
        (n p : String) (w : W) → Post (OnOk (Changes (PathRemoved n p) w)) (c.delete_path n p) w
    pub get_quota_lem :
        (n : String) (w : W) → Post (OnOk (Reads (λ s. s.quota_of n) w)) (c.get_quota n) w
    pub set_quota_lem :
        (n : String) (q : ℤ) (w : W)
        → IsInt64 q
        → Post (OnOk (Writes (with_quota n q) w)) (c.set_quota n q) w
    pub get_policy_info_lem :
        (n : String) (w : W)
        → Post (OnOk (Reads (λ s. Option.map info_of (s.policy_of n)) w)) (c.get_policy_info n) w
    pub create_or_update_policy_lem :
        (n t : String) (w : W)
        → Post (OnOk (Changes (PolicyWritten n t) w)) (c.create_or_update_policy n t) w
    pub delete_policy_lem :
        (n : String) (w : W) → Post (OnOk (Writes (with_policy n none) w)) (c.delete_policy n) w
    pub user_exist_lem :
        (n : String) (w : W)
        → Post (OnOk (Reads (λ s. is_some (s.secret_key_of n)) w)) (c.user_exist n) w
    pub check_user_credentials_valid_lem :
        (n a t : String) (w : W)
        → Post (OnOk (λ _ w'. view w' ≡ view w)) (c.check_user_credentials_valid n a t) w
    pub create_user_lem :
        (n t : String) (w : W) → Post (OnOk (Writes (with_user n (some t)) w)) (c.create_user n t) w
    pub delete_user_lem :
        (n : String) (w : W) → Post (OnOk (Changes (UserRemoved n) w)) (c.delete_user n) w
    pub get_user_policies_lem :
        (n : String) (w : W)
        → Post
            (OnOk (λ ps w'.
              ((p : String) → contains ps p ≡ (view w).user_has n p) × (view w' ≡ view w)))
            (c.get_user_policies n)
            w
    pub add_policies_to_user_lem :
        (n : String) (ps : List String) (w : W)
        → Post (OnOk (Writes (attach n ps) w)) (c.add_policies_to_user n ps) w
    pub remove_policies_from_user_lem :
        (n : String) (ps : List String) (w : W)
        → Post (OnOk (Writes (detach n ps) w)) (c.remove_policies_from_user n ps) w
