-- ===== src/Policy/Reconciles.antt =====
-- internal/controller/policy/reconcile.go, Reconcile: what a request for a policy brings about,
-- from the first read of the object to the last report.
use s3_operator.Prelude.{Bool, ◌≡◌, refl, none}
use s3_operator.Effect.{returned, Outcome}
use s3_operator.Api.{NamespacedName}
use s3_operator.S3.Backend.{Backend}
use s3_operator.Cluster.{Reconciler}
use s3_operator.Cluster.Laws.{IsConnected, IsReading, IsUpdating, IsReporting}
use s3_operator.Helpers.Client.Gives.{Permits, Permitted}
use s3_operator.Lifecycle.Deletes.{handle_deletion-passes}
use s3_operator.Lifecycle.Concludes.{Concludes}
use s3_operator.Lifecycle.Handles.{HandledBy, reconcile-Handled}
use s3_operator.Policy.{policy_finalizer, handle_deletion, reconcile}
use s3_operator.Policy.Converges.{Implements, handle_reconciliation-Sound}
use s3_operator.Policy.Deletes.{PolicyRemoved, handle_deletion-Did}

module _ {W : Type 0} {view : W → Backend} {r : Reconciler W} (k : IsConnected view r)
    (reading : IsReading view r.policies) (updating : IsUpdating view r.policies)
    (reporting : IsReporting view r.policies) (enabled : Bool)
    (permits : Permits (λ g. g.policy_deletion_enabled) enabled r) where
  -- Where clients are lawful, the API server's calls leave the backend alone, and the deletion of
  -- policies is enabled for all the instances that are read, or for none: a run of Reconcile that
  -- returns no error has ended in one of three ways. The API server had no such policy, and the
  -- backend is as it was; or the request is to be repeated, and the backend is as it was; or a
  -- policy that was served has been handled. If that is not marked for deletion, the backend has a
  -- policy of that name which the text of the spec denotes, or one whose text has the JSON form of
  -- the spec's compacted text. If it is marked and has the operator's finalizer, it is gone where
  -- deletion is enabled, and the backend is as it was where not. If it is marked and has no such
  -- finalizer, the backend is as it was.
  pub reconcile_policy-Concludes :
      (req : NamespacedName) (w v : W) (a : Outcome)
      → reconcile r req w ≡ (returned a, v)
      → a.error ≡ none
      → Concludes r.policies req
          (HandledBy r policy_finalizer
            (λ p. Permitted enabled (PolicyRemoved p.spec.name))
            (λ p s t. Implements r.formatting p.spec t))
          view
          w
          a
          v
  unfolding reconcile handle_deletion
  reconcile_policy-Concludes req w v a =
      reconcile-Handled r r.policies reading updating reporting policy_finalizer _ _ req _ _
        (λ o u served. handle_deletion-Did k updating enabled permits o u)
        (λ p u e. handle_deletion-passes r r.policies updating (λ s. s ≡ view u) _ _ _ p u e refl)
        (λ p u served. handle_reconciliation-Sound k reporting p u) w v a
