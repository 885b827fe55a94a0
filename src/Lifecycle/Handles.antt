-- ===== src/Lifecycle/Handles.antt =====
-- Reconcile of a kind, from what its handlers do: an object that was served is deleted if it is
-- marked for deletion and has the operator's finalizer, and reconciled if it is not marked.
use s3_operator.Prelude.{String, Bool, true, false, ◌≡◌, none, is_some, Bool-cases, inl, inr}
use s3_operator.Effect.{returned, Eff, Outcome}
use s3_operator.Effect.Post.{Post, Post-run, Sound}
use s3_operator.Api.{NamespacedName, Resource}
use s3_operator.S3.Backend.{Backend}
use s3_operator.Cluster.{ResourceClient, Reconciler}
use s3_operator.Cluster.Laws.{IsUpdating, IsReporting, IsReading}
use s3_operator.Lifecycle.{reconcile}
use s3_operator.Lifecycle.Concludes.{Served, Concludes, reconcile-Fine}

-- By whether the object is marked for deletion and has the finalizer.
abbrev pub Handled :
    Bool
    → Bool
    → (Backend → Backend → Type 0)
    → (Backend → Backend → Type 0)
    → Backend
    → Backend
    → Type 0
Handled true true deleted reconciled s t = deleted s t
Handled true false deleted reconciled s t = t ≡ s
Handled false has deleted reconciled s t = reconciled s t

-- The same of an object that the handlers are given.
abbrev pub HandledBy :
    {W Spec : Type 0}
    → Reconciler W
    → String
    → (Resource Spec → Backend → Backend → Type 0)
    → (Resource Spec → Backend → Backend → Type 0)
    → Resource Spec
    → Backend
    → Backend
    → Type 0
HandledBy r finalizer deleted reconciled o =
    Handled (is_some o.deletion_timestamp) (r.machinery.contains_finalizer o.finalizers finalizer)
      (deleted o) (reconciled o)

module _ {W Spec : Type 0} (r : Reconciler W) (client : ResourceClient W Spec) {view : W → Backend}
    (reading : IsReading view client) (updating : IsUpdating view client)
    (reporting : IsReporting view client) (finalizer : String)
    (Deleted Reconciled : Resource Spec → Backend → Backend → Type 0) where
  abbrev Handles : Resource Spec → Backend → Backend → Type 0
  Handles = HandledBy r finalizer Deleted Reconciled

  module _ (req : NamespacedName)
      (handle_deletion handle_reconciliation : Resource Spec → Eff W Outcome)
      (deletes : (o : Resource Spec) (w : W)
        → Served client req o
        → r.machinery.contains_finalizer o.finalizers finalizer ≡ true
        → Post (Sound (λ v. Deleted o (view w) (view v))) (handle_deletion o) w)
      (passes : (o : Resource Spec) (w : W)
        → r.machinery.contains_finalizer o.finalizers finalizer ≡ false
        → Post (Sound (λ v. view v ≡ view w)) (handle_deletion o) w)
      (reconciles : (o : Resource Spec) (w : W)
        → Served client req o
        → Post (Sound (λ v. Reconciled o (view w) (view v))) (handle_reconciliation o) w) where
    deletes-Handled :
        (o : Resource Spec) (w : W)
        → Served client req o
        → is_some o.deletion_timestamp ≡ true
        → Post (Sound (λ v. Handles o (view w) (view v))) (handle_deletion o) w
    deletes-Handled o w served marked =
        rw marked (elim (Bool-cases (r.machinery.contains_finalizer o.finalizers finalizer)) [
          | inl e ↦ rw e (deletes o w served e)
          | inr e ↦ rw e (passes o w e)
        ])

    reconciles-Handled :
        (o : Resource Spec) (w : W)
        → Served client req o
        → is_some o.deletion_timestamp ≡ false
        → Post (Sound (λ v. Handles o (view w) (view v))) (handle_reconciliation o) w
    reconciles-Handled o w served unmarked = rw unmarked (reconciles o w served)

    pub reconcile-Handled :
        (w v : W) (a : Outcome)
        → reconcile r client finalizer handle_deletion handle_reconciliation req w ≡ (returned a, v)
        → a.error ≡ none
        → Concludes client req Handles view w a v
    reconcile-Handled w v a run =
        Post-run _ w
          (reconcile-Fine r client view reading updating reporting req Handles w _ _ deletes-Handled
            reconciles-Handled finalizer)
          a v run
