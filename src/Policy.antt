-- ===== src/Policy.antt =====
-- internal/controller/policy: the controller of the kind Policy. The methods of `PolicyReconciler`
-- in the order of reconcile.go and finalizer.go; status.go is `set_reconciled_condition`.
pub mod Converges
pub mod Deletes
pub mod Reconciles
use s3_operator.Prelude.{
  String, ◌++◌, Bool, true, false, not, ◌==◌, Option, none, some, is_some, if◌then◌else◌,
}
use s3_operator.Effect.{Error, Result, ok, err, Eff, pure, panic, ◌>>=◌, attempt, Outcome, failed}
use s3_operator.Api.{Policy, condition_reconciled, unreachable, reconciled, NamespacedName}
use s3_operator.S3.{S3Client, PolicyInfo}
use s3_operator.Cluster.{Reconciler}
use s3_operator.Helpers.Client.{get_s3_client_for_ressource}
use s3_operator.Helpers.Condition
use s3_operator.Helpers.Condition.{report}
use s3_operator.Lifecycle

abbrev pub policy_finalizer : String
policy_finalizer = "s3.onyxia.sh/finalizer"

abbrev pub comparison_failed : String → String
comparison_failed name =
    "The comparison between the effective policy ["
    ++ (name ++ "] on S3 and its corresponding custom resource on K8S has failed")

module _ {W : Type 0} (r : Reconciler W) where
  unfoldable pub set_reconciled_condition : Policy → String → String → Option Error → Eff W Outcome
  set_reconciled_condition = report r r.policies

  unfoldable pub with_client : Policy → (S3Client W → Eff W Outcome) → Eff W Outcome
  with_client policy_resource rest =
      attempt
        (get_s3_client_for_ressource r policy_resource.namespace
          policy_resource.spec.s3_instance_ref)
        (λ e.
          set_reconciled_condition policy_resource unreachable
            "Failed to generate s3client from instance" (some e))
        rest

  -- `json.Marshal(effectivePolicy.Policy)` and the comparison; a nil policy is dereferenced there.
  unfoldable pub matches_compacted : String → Option PolicyInfo → Eff W (Result Bool)
  matches_compacted compacted none = panic
  matches_compacted compacted (some effective_policy) =
      attempt (pure (r.formatting.json_marshal effective_policy.policy)) (λ e. pure (err e))
        λ marshalled. pure (ok (compacted == marshalled))

  unfoldable pub is_policy_matching_with_custom_resource :
      Policy → Option PolicyInfo → Eff W (Result Bool)
  is_policy_matching_with_custom_resource policy_resource effective_policy =
      attempt (pure (r.formatting.json_compact policy_resource.spec.policy_content))
        (λ e. pure (err e)) λ compacted. matches_compacted compacted effective_policy

  -- The update of the policy has failed: the condition is set, and its error is returned. Were
  -- there none, the handler would go on with the resource as the report left it.
  pub after_failed_update : Policy → Error → Eff W Outcome
  after_failed_update policy_resource e =
      Condition.set_reconciled_condition r r.policies policy_resource condition_reconciled
        unreachable (comparison_failed policy_resource.spec.name) (some e)
      >>= λ answer.
          Lifecycle.unless_failed answer.0.error
            (set_reconciled_condition answer.1 reconciled "Policy reconciled" none)

  unfoldable pub update_unless_matching : S3Client W → Policy → Bool → Eff W Outcome
  update_unless_matching c policy_resource matching =
      if not matching
      then attempt
          (c.create_or_update_policy policy_resource.spec.name policy_resource.spec.policy_content)
          (after_failed_update policy_resource)
          (λ _. set_reconciled_condition policy_resource reconciled "Policy reconciled" none)
      else set_reconciled_condition policy_resource reconciled "Policy reconciled" none

  unfoldable pub handle_update : Policy → Eff W Outcome
  handle_update policy_resource = with_client policy_resource λ c.
      attempt (c.get_policy_info policy_resource.spec.name)
        (λ e.
          set_reconciled_condition policy_resource unreachable
            "Error while checking if policy already exist" (some e))
        λ effective_policy.
          attempt (is_policy_matching_with_custom_resource policy_resource effective_policy)
            (λ e.
              set_reconciled_condition policy_resource unreachable
                (comparison_failed policy_resource.spec.name) (some e))
            λ matching. update_unless_matching c policy_resource matching

  unfoldable pub handle_creation : Policy → Eff W Outcome
  handle_creation policy_resource = with_client policy_resource λ c.
      attempt
        (c.create_or_update_policy policy_resource.spec.name policy_resource.spec.policy_content)
        (λ e.
          set_reconciled_condition policy_resource unreachable "Error while creating policy"
            (some e))
        λ _. set_reconciled_condition policy_resource reconciled "Policy reconciled" none

  unfoldable pub handle_reconciliation : Policy → Eff W Outcome
  handle_reconciliation policy_resource = with_client policy_resource λ c.
      attempt (c.get_policy_info policy_resource.spec.name)
        (λ e.
          set_reconciled_condition policy_resource unreachable
            "Error while checking if policy already exist" (some e))
        λ effective_policy.
          if not (is_some effective_policy)
          then handle_creation policy_resource
          else handle_update policy_resource

  unfoldable pub finalize_policy : Policy → Eff W (Result (Unit {0}))
  finalize_policy policy_resource =
      attempt
        (get_s3_client_for_ressource r policy_resource.namespace
          policy_resource.spec.s3_instance_ref)
        (λ e. pure (err e))
        λ c.
          if c.get_config.policy_deletion_enabled
          then c.delete_policy policy_resource.spec.name
          else pure (ok tt)

  unfoldable pub handle_deletion : Policy → Eff W Outcome
  handle_deletion =
      Lifecycle.handle_deletion r r.policies policy_finalizer "Policy deletion has failed"
        finalize_policy

  unfoldable pub reconcile : NamespacedName → Eff W Outcome
  reconcile =
      Lifecycle.reconcile r r.policies policy_finalizer handle_deletion handle_reconciliation
