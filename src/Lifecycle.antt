-- ===== src/Lifecycle.antt =====
-- What the five controllers' methods `Reconcile` and `handleDeletion` have in common; the copies
-- differ in the kind, in the finalizer, in the handlers and in what they log.
pub mod Deletes
pub mod Concludes
pub mod Handles
use s3_operator.Prelude.{
  ℕ, String, true, not, Option, none, some, List, is_empty, is_some, if◌then◌else◌,
}
use s3_operator.Effect.{Error, Result, Eff, pure, ◌>>=◌, attempt, Outcome, done, failed}
use s3_operator.Api.{
  Condition, condition_unknown, condition_reconciled, reconciling, deletion_failure, NamespacedName,
  Resource,
}
use s3_operator.Cluster.{ResourceClient, Reconciler}
use s3_operator.Helpers.Condition.{report}

-- `ctrl.Result{Requeue: true}, nil`
abbrev pub again : Outcome
again = record { requeue = true; requeue_after = 0; error = none }

-- "Let's just set the status as Unknown when no status are available".
abbrev pub starting : ℕ → Condition
starting generation = record {
  type = condition_reconciled;
  status = condition_unknown;
  observed_generation = generation;
  last_transition_time = none;
  reason = reconciling;
  message = "Starting reconciliation";
}

abbrev pub unless_failed : {W : Type 0} → Option Error → Eff W Outcome → Eff W Outcome
unless_failed (some e) rest = pure (failed e)
unless_failed none rest = rest

module _ {W Spec : Type 0} (r : Reconciler W) (client : ResourceClient W Spec) where
  -- `if err := write; err != nil { return ctrl.Result{}, err }`, for a write of the object.
  unfoldable pub after_update : Eff W (Resource Spec × Option Error) → Eff W Outcome → Eff W Outcome
  after_update write rest = write >>= λ answer. unless_failed answer.1 rest

  -- The object is read again after a write.
  unfoldable pub re_fetch : NamespacedName → (Resource Spec → Eff W Outcome) → Eff W Outcome
  re_fetch req rest = attempt (client.get req) (λ e. pure (failed e)) rest

  unfoldable pub ensure_status :
      NamespacedName → Resource Spec → (Resource Spec → Eff W Outcome) → Eff W Outcome
  ensure_status req resource rest =
      if is_empty resource.conditions
      then after_update
          (client.update_status (record resource {
            conditions =
                (r.machinery.set_status_condition resource.conditions
                  (starting resource.generation)).0;
          }))
          (re_fetch req rest)
      else rest resource

  abbrev with_finalizers : Resource Spec → List String → Resource Spec
  with_finalizers resource finalizers = record resource {
    meta = record resource.meta { finalizers = finalizers };
  }

  unfoldable pub ensure_finalizer :
      String → NamespacedName → Resource Spec → (Resource Spec → Eff W Outcome) → Eff W Outcome
  ensure_finalizer finalizer req resource rest =
      if not (r.machinery.contains_finalizer resource.finalizers finalizer)
      then (let (finalizers, added) = r.machinery.add_finalizer resource.finalizers finalizer in
          if not added
          then pure again
          else after_update (client.update (with_finalizers resource finalizers))
              (re_fetch req rest))
      else rest resource

  -- A resource that is marked for deletion is deleted, and any other is reconciled.
  unfoldable pub dispatch :
      (Resource Spec → Eff W Outcome)
      → (Resource Spec → Eff W Outcome)
      → Resource Spec
      → Eff W Outcome
  dispatch handle_deletion handle_reconciliation resource =
      if is_some resource.deletion_timestamp
      then handle_deletion resource
      else handle_reconciliation resource

  unfoldable pub reconcile :
      String
      → (Resource Spec → Eff W Outcome)
      → (Resource Spec → Eff W Outcome)
      → NamespacedName
      → Eff W Outcome
  reconcile finalizer handle_deletion handle_reconciliation req =
      attempt (client.get req) (λ e. pure (if e.is_not_found then done else failed e))
        λ resource. ensure_status req resource λ resource.
          ensure_finalizer finalizer req resource
            λ resource. dispatch handle_deletion handle_reconciliation resource

  -- The end of a deletion: the finalizer is taken off, and the object is written.
  unfoldable pub release : String → Resource Spec → Eff W Outcome
  release finalizer resource =
      let (finalizers, removed) = r.machinery.remove_finalizer resource.finalizers finalizer in
      if not removed
      then pure again
      else after_update (client.update (with_finalizers resource finalizers)) (pure done)

  -- `handleDeletion` of a bucket, a path and a policy.
  unfoldable pub handle_deletion :
      String → String → (Resource Spec → Eff W (Result (Unit {0}))) → Resource Spec → Eff W Outcome
  handle_deletion finalizer message finalize resource =
      if r.machinery.contains_finalizer resource.finalizers finalizer
      then attempt (finalize resource)
          (λ e. report r client resource deletion_failure message (some e))
          (λ _. release finalizer resource)
      else pure done
