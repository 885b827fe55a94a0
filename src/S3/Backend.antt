-- ===== src/S3/Backend.antt =====
-- The abstract view of an S3 backend: what the operator brings about there. A call of the client
-- that succeeds changes the view as the functions below do.
use s3_operator.Prelude.{
  String, Bool, true, false, not, ◌&&◌, ◌||◌, ◌≡◌, Option, none, some, List, contains, ℤ, ◌==◌,
  if◌then◌else◌,
}

-- A policy as a backend keeps it: the text that it gives, and the texts that it reads as the same
-- policy. It need not give the text that was written: it may have compacted it.
pub record StoredPolicy : Type 0 where
  pub text : String
  pub denotes : String → Bool
  pub denotes_text : denotes text ≡ true

pub record Backend : Type 0 where
  pub has_bucket : String → Bool
  pub quota_of : String → ℤ
  pub has_path : String → String → Bool
  pub policy_of : String → Option StoredPolicy
  -- The secret key of a user that is there, and whether a user has a policy.
  pub secret_key_of : String → Option String
  pub user_has : String → String → Bool

-- A write at one key, and at a pair of keys.
abbrev pub put {ℓ} : {V : Type ℓ} → String → V → (String → V) → String → V
put k v f j = if k == j then v else f j

abbrev pub put₂ {ℓ} :
    {V : Type ℓ} → String → String → V → (String → String → V) → String → String → V
put₂ k l v f i j = if k == i then (if l == j then v else f i j) else f i j

abbrev pub add_bucket : String → Backend → Backend
add_bucket n s = record s { has_bucket = put n true s.has_bucket }

-- From `s` to `t` a bucket is gone, maybe with what was kept of it, and nothing of another.
pub record BucketRemoved (n : String) (s t : Backend) : Type 0 where
  pub bucket_gone : t.has_bucket ≡ put n false s.has_bucket
  pub quotas_kept : (m : String) → (n == m) ≡ false → t.quota_of m ≡ s.quota_of m
  pub paths_kept : (m : String) → (n == m) ≡ false → t.has_path m ≡ s.has_path m
  pub rest_same :
      t ≡ record s { has_bucket = t.has_bucket; quota_of = t.quota_of; has_path = t.has_path }

abbrev pub with_quota : String → ℤ → Backend → Backend
with_quota n q s = record s { quota_of = put n q s.quota_of }

-- From `s` to `t` the bucket has got a path and has lost none. A backend may read other texts as
-- the same path, so it is not said that it has got no other.
pub record PathAdded (b p : String) (s t : Backend) : Type 0 where
  pub path_there : t.has_path b p ≡ true
  pub paths_kept : (q : String) → s.has_path b q ≡ true → t.has_path b q ≡ true
  pub rest_same : t ≡ record s { has_path = t.has_path }

-- From `s` to `t` the bucket has lost a path and has got none.
pub record PathRemoved (b p : String) (s t : Backend) : Type 0 where
  pub path_gone : t.has_path b p ≡ false
  pub none_added : (q : String) → s.has_path b q ≡ false → t.has_path b q ≡ false
  pub rest_same : t ≡ record s { has_path = t.has_path }

-- From `s` to `t` a user is gone, maybe with what was attached to it, and nothing of another.
pub record UserRemoved (n : String) (s t : Backend) : Type 0 where
  pub user_gone : t.secret_key_of ≡ put n none s.secret_key_of
  pub others_kept : (m : String) → (n == m) ≡ false → t.user_has m ≡ s.user_has m
  pub rest_same : t ≡ record s { secret_key_of = t.secret_key_of; user_has = t.user_has }

abbrev pub with_policy : String → Option StoredPolicy → Backend → Backend
with_policy n c s = record s { policy_of = put n c s.policy_of }

-- From `s` to `t` a policy has been written that the text denotes, and nothing else has changed.
pub record PolicyWritten (n text : String) (s t : Backend) : Type 0 where
  pub stored : StoredPolicy
  pub stored_denotes : stored.denotes text ≡ true
  pub policy_there : t ≡ with_policy n (some stored) s

abbrev pub with_user : String → Option String → Backend → Backend
with_user n k s = record s { secret_key_of = put n k s.secret_key_of }

abbrev pub attach : String → List String → Backend → Backend
attach n ps s = record s { user_has = put n (λ p. s.user_has n p || contains ps p) s.user_has }

abbrev pub detach : String → List String → Backend → Backend
detach n ps s = record s {
  user_has = put n (λ p. s.user_has n p && not (contains ps p)) s.user_has;
}
