-- ===== src/S3/Responds.antt =====
-- A backend that is up, where the controllers of buckets and paths need it.
use s3_operator.Prelude.{String, ◌≡◌, none, ℤ}
use s3_operator.Effect.Returns.{Returns}
use s3_operator.Effect.Settles.{Yields}
use s3_operator.S3.{S3Client}

-- A client whose calls on buckets and paths go through.
pub record IsResponsive {W : Type 0} (c : S3Client W) : Type 0 where
  pub bucket_exists_lem : (n : String) → Yields (λ _. Unit) (c.bucket_exists n)
  pub create_bucket_lem : (n : String) → Yields (λ _. Unit) (c.create_bucket n)
  pub create_path_lem : (n p : String) → Yields (λ _. Unit) (c.create_path n p)
  pub path_exists_lem : (n p : String) (w : W) → Returns (λ x _. x.1 ≡ none) (c.path_exists n p) w
  pub get_quota_lem : (n : String) → Yields (λ _. Unit) (c.get_quota n)
  pub set_quota_lem : (n : String) (q : ℤ) → Yields (λ _. Unit) (c.set_quota n q)
