-- ===== src/Helpers/Condition.antt =====
-- internal/helpers/controller.go: the condition `Reconciled` of a resource is set, and written to
-- the API server if it has changed.
pub mod Reports
pub mod Settles
pub mod Closed
use s3_operator.Prelude.{ℕ, String, ◌++◌, Bool, false, Option, none, some, List, if◌then◌else◌}
use s3_operator.Effect.{Error, Eff, pure, ◌>>=◌, Outcome, failed}
use s3_operator.Api.{Condition, condition_true, condition_false, condition_reconciled, Resource}
use s3_operator.Cluster.{ResourceClient, Reconciler}

-- The condition that is set: of status False with the error's text behind the message if there is
-- an error, and of status True if there is none.
abbrev pub condition_of : ℕ → String → String → String → Option Error → Condition
condition_of generation condition_type reason message (some e) = record {
  type = condition_type;
  status = condition_false;
  observed_generation = generation;
  last_transition_time = none;
  reason = reason;
  message = message ++ (": " ++ e.text);
}
condition_of generation condition_type reason message none = record {
  type = condition_type;
  status = condition_true;
  observed_generation = generation;
  last_transition_time = none;
  reason = reason;
  message = message;
}

module _ {W Spec : Type 0} (r : Reconciler W) (client : ResourceClient W Spec) where
  -- How the call ends once the status is written: with the error of that, or with the caller's.
  abbrev pub after_write : Option Error → Resource Spec × Option Error → Outcome × Resource Spec
  after_write e (resource, some e') = (failed e', resource)
  after_write e (resource, none) =
      (record { requeue = false; requeue_after = r.reconcile_period; error = e }, resource)

  abbrev pub write_if :
      Option Error → Resource Spec → List Condition × Bool → Eff W (Outcome × Resource Spec)
  write_if e resource (conditions, changed) =
      if changed
      then client.update_status (record resource { conditions = conditions })
        >>= (λ answer. pure (after_write e answer))
      else pure (after_write e (record resource { conditions = conditions }, none))

  -- `ControllerHelper.SetReconciledCondition`; the resource, which the source changes through a
  -- pointer, is returned beside the outcome.
  unfoldable pub set_reconciled_condition :
      Resource Spec → String → String → String → Option Error → Eff W (Outcome × Resource Spec)
  set_reconciled_condition resource condition_type reason message e = write_if e resource (
      r.machinery.set_status_condition resource.conditions
        (condition_of resource.generation condition_type reason message e))

  -- The method `SetReconciledCondition` of a reconciler (status.go of each controller), which sets
  -- the condition `Reconciled`.
  unfoldable pub report : Resource Spec → String → String → Option Error → Eff W Outcome
  report resource reason message e =
      set_reconciled_condition resource condition_reconciled reason message e
      >>= (λ answer. pure answer.0)
