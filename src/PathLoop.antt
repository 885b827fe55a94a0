-- ===== src/PathLoop.antt =====
-- The loop over `Spec.Paths` that the bucket controller (internal/controller/bucket/reconcile.go)
-- and the path controller (internal/controller/path/reconcile.go) both have: a path that the bucket
-- lacks is created, and the first error ends the handler.
pub mod Creates
pub mod Settles
pub mod Stays
use s3_operator.Prelude.{String, ◌++◌, Bool, not, Option, none, some, List, [], ◌∷◌, if◌then◌else◌}
use s3_operator.Effect.{Error, Eff, pure, ◌>>=◌, attempt, Outcome}
use s3_operator.Api.{unreachable, Resource}
use s3_operator.S3.{S3Client}
use s3_operator.Cluster.{ResourceClient, Reconciler}
use s3_operator.Helpers.Condition.{report}

abbrev pub check_failed : String → String
check_failed path = "The check for path [" ++ (path ++ "] in bucket has failed")

abbrev pub creation_failed : String → String
creation_failed path = "The creation of path [" ++ (path ++ "] in bucket has failed")

module _ {W Spec : Type 0} (r : Reconciler W) (client : ResourceClient W Spec) where
  -- What follows `PathExists` in a round; `rest` is the other rounds and what stands behind them.
  abbrev pub create_missing :
      S3Client W
      → Resource Spec
      → String
      → String
      → Eff W Outcome
      → Bool × Option Error
      → Eff W Outcome
  create_missing c resource bucket path rest (found, some e) =
      report r client resource unreachable (check_failed path) (some e)
  create_missing c resource bucket path rest (found, none) =
      if not found
      then attempt (c.create_path bucket path)
          (λ e. report r client resource unreachable (creation_failed path) (some e)) (λ _. rest)
      else rest

  unfoldable pub ensure_paths :
      S3Client W → Resource Spec → String → List String → Eff W Outcome → Eff W Outcome
  ensure_paths c resource bucket [] rest = rest
  ensure_paths c resource bucket (path ∷ paths) rest =
      c.path_exists bucket path
      >>= create_missing c resource bucket path (ensure_paths c resource bucket paths rest)
