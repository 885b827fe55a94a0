-- ===== src/Instance.antt =====
-- internal/controller/s3instance: the controller of the kind S3Instance. The methods of
-- `S3InstanceReconciler` in the order of reconcile.go and finalizer.go; status.go is
-- `set_reconciled_condition`.
pub mod Referred
use s3_operator.Prelude.{
  ℕ, zero, suc, String, ◌++◌, Bool, ◌==◌, Option, none, some, List, [], ◌∷◌, ltb, pos,
  if◌then◌else◌,
}
use s3_operator.Effect.{Error, errorf, Result, ok, err, Eff, pure, attempt, Outcome, done, failed}
use s3_operator.Api.{
  Resource, S3Instance, unreachable, creation_failure, reconciled, NamespacedName,
}
use s3_operator.Cluster.{ResourceClient, Reconciler}
use s3_operator.Helpers.InstanceRef.{get_s3_instance_ref_info, info_string}
use s3_operator.Helpers.Client.{get_s3_client_from_s3_instance}
use s3_operator.Helpers.Condition.{report}
use s3_operator.Lifecycle

abbrev pub s3_instance_finalizer : String
s3_instance_finalizer = "s3.onyxia.sh/finalizer"

-- The keys of the map `references`.
pub data ReferenceKind : Type 0 where
  buckets policies paths s3_users : ReferenceKind

abbrev pub kind_name : ReferenceKind → String
kind_name buckets = "Buckets"
kind_name policies = "Policies"
kind_name paths = "Paths"
kind_name s3_users = "S3Users"

-- The keys of the map `references`, as the source lists them.
abbrev pub references : List ReferenceKind
references = buckets ∷ policies ∷ paths ∷ s3_users ∷ []

-- The order of `range` over a map of these keys.
abbrev pub KeyOrder : Type 0
KeyOrder = List ReferenceKind → List ReferenceKind

-- The test of an object in `countReferences`.
unfoldable pub refers_to : S3Instance → String → String → Bool
refers_to s3_instance ref namespace =
    info_string (get_s3_instance_ref_info ref namespace)
    == (s3_instance.namespace ++ ("/" ++ s3_instance.name))

-- `countReferences`, of a list of any kind; `ref` reads `Spec.S3InstanceRef`.
unfoldable pub count_references :
    {Spec : Type 0} → (Spec → String) → S3Instance → List (Resource Spec) → ℕ
count_references ref s3_instance [] = zero
count_references ref s3_instance (obj ∷ objects) =
    let count = count_references ref s3_instance objects in
    if refers_to s3_instance (ref obj.spec) obj.namespace then suc count else count

module _ {W : Type 0} (r : Reconciler W) where
  pub set_reconciled_condition : S3Instance → String → String → Option Error → Eff W Outcome
  set_reconciled_condition = report r r.s3_instances

  pub handle_reconciliation : S3Instance → Eff W Outcome
  handle_reconciliation s3_instance_resource =
      attempt (get_s3_client_from_s3_instance r s3_instance_resource)
        (λ e.
          set_reconciled_condition s3_instance_resource unreachable "Failed to generate S3Instance "
            (some e))
        λ c.
          attempt c.list_buckets
            (λ e.
              set_reconciled_condition s3_instance_resource creation_failure
                "Failed to generate S3Instance " (some e))
            λ _.
              set_reconciled_condition s3_instance_resource reconciled
                "S3Instance instance reconciled" none

  -- `fmt.Errorf("…: %w", name, err)` keeps what can be asked of the error that it wraps.
  abbrev pub list_failed : ReferenceKind → Error → Error
  list_failed kind e = record e {
    text = "échec de la récupération des " ++ (kind_name kind ++ (" : " ++ e.text));
  }

  abbrev pub still_referred : ReferenceKind → ℕ → Error
  still_referred kind found = errorf (
      "impossible de supprimer S3Instance, "
      ++ (r.formatting.int64 (pos found)
          ++ (" " ++ (kind_name kind ++ " utilisent cette instance"))))

  -- A round of `checkS3InstanceReferences`, over the list of one kind.
  unfoldable pub check_list :
      {Spec : Type 0}
      → ReferenceKind
      → (Spec → String)
      → ResourceClient W Spec
      → S3Instance
      → Eff W (Result (Unit {0}))
      → Eff W (Result (Unit {0}))
  check_list kind ref client s3_instance rest =
      attempt client.list (λ e. pure (err (list_failed kind e)))
        λ objects.
          let found = count_references ref s3_instance objects in
          if ltb 0 found then pure (err (still_referred kind found)) else rest

  unfoldable pub check_kind :
      ReferenceKind → S3Instance → Eff W (Result (Unit {0})) → Eff W (Result (Unit {0}))
  check_kind buckets = check_list buckets (λ s. s.s3_instance_ref) r.buckets
  check_kind policies = check_list policies (λ s. s.s3_instance_ref) r.policies
  check_kind paths = check_list paths (λ s. s.s3_instance_ref) r.paths
  check_kind s3_users = check_list s3_users (λ s. s.s3_instance_ref) r.s3_users

  -- The loop of `checkS3InstanceReferences`.
  unfoldable pub check_kinds : List ReferenceKind → S3Instance → Eff W (Result (Unit {0}))
  check_kinds [] s3_instance = pure (ok tt)
  check_kinds (kind ∷ kinds) s3_instance =
      check_kind kind s3_instance (check_kinds kinds s3_instance)

  -- `checkS3InstanceReferences`; Go visits the keys of a map in the order that it chooses.
  unfoldable pub check_s3_instance_references : KeyOrder → S3Instance → Eff W (Result (Unit {0}))
  check_s3_instance_references order s3_instance = check_kinds (order references) s3_instance

  unfoldable pub handle_s3_instance_deletion : KeyOrder → S3Instance → Eff W Outcome
  handle_s3_instance_deletion order s3_instance_resource =
      if r.machinery.contains_finalizer s3_instance_resource.finalizers s3_instance_finalizer
      then attempt (check_s3_instance_references order s3_instance_resource) (λ e. pure (failed e))
          (λ _. Lifecycle.release r r.s3_instances s3_instance_finalizer s3_instance_resource)
      else pure done

  unfoldable pub reconcile : KeyOrder → NamespacedName → Eff W Outcome
  reconcile order =
      Lifecycle.reconcile r r.s3_instances s3_instance_finalizer (handle_s3_instance_deletion order)
        handle_reconciliation
