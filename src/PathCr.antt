-- ===== src/PathCr.antt =====
-- internal/controller/path: the controller of the kind Path. The methods of `PathReconciler` in the
-- order of reconcile.go and finalizer.go; status.go is `set_reconciled_condition`.
pub mod Creates
pub mod Deletes
pub mod Settles
pub mod Finalizes
pub mod Reconciles
use mathlib.Core.List as L
use s3_operator.Prelude.{
  String, ◌++◌, Bool, true, false, not, Option, none, some, List, [], ◌∷◌, is_empty, if◌then◌else◌,
}
use s3_operator.Effect.{Error, errorf, Result, ok, err, Eff, pure, ◌>>=◌, attempt, Outcome}
use s3_operator.Api.{PathCr, unreachable, creation_failure, reconciled, NamespacedName}
use s3_operator.S3.{S3Client}
use s3_operator.Cluster.{Reconciler}
use s3_operator.Helpers.Client.{get_s3_client_for_ressource}
use s3_operator.Helpers.Condition.{report}
use s3_operator.Lifecycle
use s3_operator.PathLoop

abbrev pub path_finalizer : String
path_finalizer = "s3.onyxia.sh/finalizer"

-- `append(failedPaths, path)` where the deletion of `path` failed.
abbrev pub with_failed : List String → String → Result (Unit {0}) → List String
with_failed failed_paths path (ok _) = failed_paths
with_failed failed_paths path (err e) = L.◌++◌ failed_paths (path ∷ [])

module _ {W : Type 0} (r : Reconciler W) where
  unfoldable pub set_reconciled_condition : PathCr → String → String → Option Error → Eff W Outcome
  set_reconciled_condition = report r r.paths

  -- What follows the check of the bucket. Where it is not found, the error that is passed on is
  -- that of the check, which is nil.
  unfoldable pub create_in_bucket : S3Client W → PathCr → Bool → Eff W Outcome
  create_in_bucket c path_resource bucket_found =
      if not bucket_found
      then set_reconciled_condition path_resource creation_failure
          ("The Path CR ["
            ++ (path_resource.name
                ++ ("] references a non-existing bucket ["
                    ++ (path_resource.spec.bucket_name ++ "]"))))
          none
      else PathLoop.ensure_paths r r.paths c path_resource path_resource.spec.bucket_name
          path_resource.spec.paths
          (set_reconciled_condition path_resource reconciled "Path reconciled" none)

  unfoldable pub handle_reconciliation : PathCr → Eff W Outcome
  handle_reconciliation path_resource =
      attempt
        (get_s3_client_for_ressource r path_resource.namespace path_resource.spec.s3_instance_ref)
        (λ e.
          set_reconciled_condition path_resource unreachable
            "Failed to generate s3client from instance" (some e))
        λ c.
          attempt (c.bucket_exists path_resource.spec.bucket_name)
            (λ e.
              set_reconciled_condition path_resource unreachable
                "Error while checking if bucket already exist" (some e))
            λ bucket_found. create_in_bucket c path_resource bucket_found

  -- A round of the loop of `finalizePath`, behind `PathExists`, whose error is only logged.
  unfoldable pub delete_if_found :
      S3Client W → String → String → List String → Bool → Eff W (List String)
  delete_if_found c bucket path failed_paths path_exists =
      if path_exists
      then c.delete_path bucket path >>= (λ d. pure (with_failed failed_paths path d))
      else pure failed_paths

  -- The loop; it returns `failedPaths`.
  unfoldable pub delete_paths :
      S3Client W → String → List String → List String → Eff W (List String)
  delete_paths c bucket failed_paths [] = pure failed_paths
  delete_paths c bucket failed_paths (path ∷ paths) = c.path_exists bucket path >>= λ x.
      delete_if_found c bucket path failed_paths x.0 >>= λ failed_paths.
      delete_paths c bucket failed_paths paths

  unfoldable pub finalize_path : PathCr → Eff W (Result (Unit {0}))
  finalize_path path_resource =
      attempt
        (get_s3_client_for_ressource r path_resource.namespace path_resource.spec.s3_instance_ref)
        (λ e. pure (err e))
        λ c.
          if c.get_config.path_deletion_enabled
          then delete_paths c path_resource.spec.bucket_name [] path_resource.spec.paths
            >>= (λ failed_paths. pure (
                if is_empty failed_paths
                then ok tt
                else err (
                    errorf (
                      "at least one path couldn't be removed from S3 backend "
                      ++ r.formatting.quoted failed_paths))))
          else pure (ok tt)

  unfoldable pub handle_deletion : PathCr → Eff W Outcome
  handle_deletion =
      Lifecycle.handle_deletion r r.paths path_finalizer "Path deletion has failed" finalize_path

  unfoldable pub reconcile : NamespacedName → Eff W Outcome
  reconcile = Lifecycle.reconcile r r.paths path_finalizer handle_deletion handle_reconciliation
