-- ===== src/Bucket.antt =====
-- internal/controller/bucket: the controller of the kind Bucket. The methods of `BucketReconciler`
-- in the order of reconcile.go and finalizer.go; status.go is `set_reconciled_condition`.
pub mod Target
pub mod Converges
pub mod Deletes
pub mod Reconciles
pub mod Settles
pub mod Stays
pub mod Guard
use s3_operator.Prelude.{
  ℕ, String, ◌++◌, Bool, true, false, not, Option, none, some, List, [], ◌∷◌, ℤ, pos, ◌=ℤ◌,
  if◌then◌else◌,
}
use s3_operator.Effect.{Error, Result, ok, err, Eff, pure, attempt, Outcome}
use s3_operator.Api.{Bucket, Quota, unreachable, creation_failure, reconciled, NamespacedName}
use s3_operator.S3.{S3Client}
use s3_operator.Cluster.{Reconciler}
use s3_operator.Helpers.Client.{get_s3_client_for_ressource}
use s3_operator.Helpers.Condition.{report}
use s3_operator.Lifecycle
use s3_operator.PathLoop

abbrev pub bucket_finalizer : String
bucket_finalizer = "s3.onyxia.sh/finalizer"

-- The quota that `handleUpdate` resets to: the override, or the default if the override is zero;
-- `none` if the one that is looked at does not convert to an int64.
abbrev pub quota_to_reset_to : Quota → Option ℤ
quota_to_reset_to quota =
    if not quota.override.as_int64.1
    then none
    else if quota.override.as_int64.0 =ℤ pos 0
    then (if not quota.default.as_int64.1 then none else some quota.default.as_int64.0)
    else some quota.override.as_int64.0

module _ {W : Type 0} (r : Reconciler W) where
  unfoldable pub set_reconciled_condition : Bucket → String → String → Option Error → Eff W Outcome
  set_reconciled_condition = report r r.buckets

  -- Each handler asks for a client anew.
  unfoldable pub with_client : Bucket → (S3Client W → Eff W Outcome) → Eff W Outcome
  with_client bucket_resource rest =
      attempt
        (get_s3_client_for_ressource r bucket_resource.namespace
          bucket_resource.spec.s3_instance_ref)
        (λ e.
          set_reconciled_condition bucket_resource unreachable
            "Failed to generate s3client from instance" (some e))
        rest

  -- `if effectiveQuota != quotaToResetTo`
  unfoldable pub reset_quota : S3Client W → Bucket → ℤ → ℤ → Eff W Outcome → Eff W Outcome
  reset_quota c bucket_resource effective_quota quota rest =
      if not (effective_quota =ℤ quota)
      then attempt (c.set_quota bucket_resource.spec.name quota)
          (λ e.
            set_reconciled_condition bucket_resource unreachable
              ("The quota update ("
                ++ (r.formatting.int64 effective_quota
                    ++ (" => " ++ (r.formatting.int64 quota ++ ") has failed"))))
              (some e))
          (λ _. rest)
      else rest

  -- The loop over the paths, and the report behind it.
  unfoldable pub update_paths : S3Client W → Bucket → Eff W Outcome
  update_paths c bucket_resource =
      PathLoop.ensure_paths r r.buckets c bucket_resource bucket_resource.spec.name
        bucket_resource.spec.paths
        (set_reconciled_condition bucket_resource reconciled "Bucket reconciled" none)

  -- What follows the conversion of the quota; `err` is nil where the conversion fails.
  unfoldable pub update_quota : S3Client W → Bucket → ℤ → Option ℤ → Eff W Outcome
  update_quota c bucket_resource effective_quota none =
      set_reconciled_condition bucket_resource unreachable "An error occurred while creating bucket"
        none
  update_quota c bucket_resource effective_quota (some quota) =
      reset_quota c bucket_resource effective_quota quota (update_paths c bucket_resource)

  unfoldable pub handle_update : Bucket → Eff W Outcome
  handle_update bucket_resource = with_client bucket_resource λ c.
      attempt (c.get_quota bucket_resource.spec.name)
        (λ e.
          set_reconciled_condition bucket_resource unreachable "Checking quota has failed" (some e))
        λ effective_quota.
          update_quota c bucket_resource effective_quota
            (quota_to_reset_to bucket_resource.spec.quota)

  -- "Path creation", and the report behind it.
  unfoldable pub create_paths : S3Client W → Bucket → List String → Eff W Outcome
  create_paths c bucket_resource [] =
      set_reconciled_condition bucket_resource reconciled "Bucket reconciled" none
  create_paths c bucket_resource (path ∷ paths) =
      attempt (c.create_path bucket_resource.spec.name path)
        (λ e.
          set_reconciled_condition bucket_resource unreachable
            ("Creation for path [" ++ (path ++ "] in bucket has failed")) (some e))
        (λ _. create_paths c bucket_resource paths)

  -- "Setting quotas": of the default alone; `err` is nil where the conversion fails.
  unfoldable pub create_quota : S3Client W → Bucket → Eff W Outcome
  create_quota c bucket_resource =
      if not bucket_resource.spec.quota.default.as_int64.1
      then set_reconciled_condition bucket_resource creation_failure
          "An error occurred while creating bucket" none
      else attempt
          (c.set_quota bucket_resource.spec.name bucket_resource.spec.quota.default.as_int64.0)
          (λ e.
            set_reconciled_condition bucket_resource unreachable
              ("Setting a quota of ["
                ++ (bucket_resource.spec.quota.default.text
                    ++ ("] on bucket [" ++ (bucket_resource.spec.name ++ "] has failed"))))
              (some e))
          (λ _. create_paths c bucket_resource bucket_resource.spec.paths)

  unfoldable pub handle_creation : Bucket → Eff W Outcome
  handle_creation bucket_resource = with_client bucket_resource λ c.
      attempt (c.create_bucket bucket_resource.spec.name)
        (λ e.
          set_reconciled_condition bucket_resource creation_failure
            "An error occurred while creating bucket" (some e))
        (λ _. create_quota c bucket_resource)

  unfoldable pub handle_reconciliation : Bucket → Eff W Outcome
  handle_reconciliation bucket_resource = with_client bucket_resource λ c.
      attempt (c.bucket_exists bucket_resource.spec.name)
        (λ e.
          set_reconciled_condition bucket_resource unreachable
            "Error while checking if bucket already exist" (some e))
        λ found.
          if not found then handle_creation bucket_resource else handle_update bucket_resource

  unfoldable pub finalize_bucket : Bucket → Eff W (Result (Unit {0}))
  finalize_bucket bucket_resource =
      attempt
        (get_s3_client_for_ressource r bucket_resource.namespace
          bucket_resource.spec.s3_instance_ref)
        (λ e. pure (err e))
        λ c.
          if c.get_config.bucket_deletion_enabled
          then c.delete_bucket bucket_resource.spec.name
          else pure (ok tt)

  unfoldable pub handle_deletion : Bucket → Eff W Outcome
  handle_deletion =
      Lifecycle.handle_deletion r r.buckets bucket_finalizer "Bucket deletion has failed"
        finalize_bucket

  unfoldable pub reconcile : NamespacedName → Eff W Outcome
  reconcile = Lifecycle.reconcile r r.buckets bucket_finalizer handle_deletion handle_reconciliation
