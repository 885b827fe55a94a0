-- ===== src/Lifecycle/Concludes.antt =====
-- How a reconciliation without an error ends: it has handled an object that the API server served
-- for the request, or it was a requeue or a request for an object that is not there, and has left
-- the backend alone.
use s3_operator.Prelude.{
  String, true, false, ◌≡◌, refl, ◌∙◌, subst, inl, inr, Option, none, some, is_some, is_empty,
  Bool-cases,
}
use s3_operator.Effect.{Error, ok, err, returned, Eff, Outcome}
use s3_operator.Effect.Leaves.{Leaves}
use s3_operator.Effect.Post.{
  Post, Post-bind, Post-both, Post-handle, Post-exact, Post-weaken, Sound,
}
use s3_operator.Api.{NamespacedName, Resource}
use s3_operator.S3.Backend.{Backend}
use s3_operator.Cluster.{ResourceClient, Reconciler}
use s3_operator.Cluster.Laws.{IsUpdating, IsReporting, IsReading}
use s3_operator.Lifecycle.{
  unless_failed, after_update, re_fetch, ensure_status, ensure_finalizer, dispatch, reconcile,
}

module _ {W Spec : Type 0} (client : ResourceClient W Spec) (req : NamespacedName) where
  -- The API server served the object for the request, at some time.
  abbrev pub Served : Resource Spec → Type 0
  Served o = (u : W) × (v : W) × (client.get req u ≡ (returned (ok o), v))

  -- The request was answered that there is no such object.
  abbrev pub Missing : W → Type 0
  Missing w =
      (e : Error) × (v : W) × (client.get req w ≡ (returned (err e), v)) × (e.is_not_found ≡ true)

  pub data Concludes (G : Resource Spec → Backend → Backend → Type 0) (view : W → Backend) (w : W)
      (a : Outcome) (v : W) : Type 0 where
    missing : Missing w → view v ≡ view w → Concludes G view w a v
    requeued : a.requeue ≡ true → view v ≡ view w → Concludes G view w a v
    handled : (o : Resource Spec) → Served o → G o (view w) (view v) → Concludes G view w a v

module _ {W Spec : Type 0} (r : Reconciler W) (client : ResourceClient W Spec) (view : W → Backend)
    (reading : IsReading view client) (updating : IsUpdating view client)
    (reporting : IsReporting view client) (req : NamespacedName)
    (G : Resource Spec → Backend → Backend → Type 0) (w : W) where
  abbrev Fine : Outcome → W → Type 0
  Fine a v = a.error ≡ none → Concludes client req G view w a v

  -- What follows, for an object that was served, where the backend is as it was at the start.
  abbrev Goes : (Resource Spec → Eff W Outcome) → Type 0
  Goes rest =
      (o : Resource Spec) (v : W) → Served client req o → view v ≡ view w → Post Fine (rest o) v

  -- An object as it was read.
  re_fetch-Fine :
      (rest : Resource Spec → Eff W Outcome) (v : W)
      → Goes rest
      → view v ≡ view w
      → Post Fine (re_fetch r client req rest) v
  unfolding re_fetch
  re_fetch-Fine rest v h same =
      Post-handle (λ x u. (client.get req v ≡ (returned x, u)) × (view u ≡ view v)) _ _ _ v
        (Post-both _ _ _ v (Post-exact _ v) (reading.get_lem req v))
        (λ e u _. record { at = λ n. absurd (cc) })
        (λ o u (run, still). h o u (v, u, run) (still ∙ same))

  unless_failed-Fine :
      (o : Option Error) (rest : Eff W Outcome) (v : W)
      → Post Fine rest v
      → Post Fine (unless_failed o rest) v
  unless_failed-Fine (some e) rest v h = record { at = λ n. absurd (cc) }
  unless_failed-Fine none rest v h = h

  -- A write of the object, which leaves the backend alone.
  after_update-Fine :
      (write : Eff W (Resource Spec × Option Error)) (rest : Eff W Outcome) (v : W)
      → Leaves view write
      → view v ≡ view w
      → ((u : W) → view u ≡ view w → Post Fine rest u)
      → Post Fine (after_update r client write rest) v
  unfolding after_update
  after_update-Fine write rest v leaves same h =
      Post-bind {P = λ _ u. view u ≡ view v} _ _ v (leaves v)
        λ x u still. unless_failed-Fine x.1 rest u (h u (still ∙ same))

  ensure_status-Fine :
      (rest : Resource Spec → Eff W Outcome)
      → Goes rest
      → Goes (λ o. ensure_status r client req o rest)
  unfolding ensure_status
  ensure_status-Fine rest h o v served same = elim (Bool-cases (is_empty o.conditions)) [
    | inl e ↦ rw e (
        after_update-Fine _ _ v (reporting.update_status_lem _) same
          (λ u still. re_fetch-Fine rest u h still))
    | inr e ↦ rw e (h o v served same)
  ]

  ensure_finalizer-Fine :
      (finalizer : String) (rest : Resource Spec → Eff W Outcome)
      → Goes rest
      → Goes (λ o. ensure_finalizer r client finalizer req o rest)
  unfolding ensure_finalizer
  ensure_finalizer-Fine finalizer rest h o v served same =
      elim (Bool-cases (r.machinery.contains_finalizer o.finalizers finalizer)) [
        | inl e ↦ rw e (h o v served same)
        | inr e ↦ rw e (elim (Bool-cases (r.machinery.add_finalizer o.finalizers finalizer).1) [
          | inl a ↦ rw a (
              after_update-Fine _ _ v (updating.update_lem _) same
                (λ u still. re_fetch-Fine rest u h still))
          | inr a ↦ rw a (record { at = λ _. Concludes.requeued refl same })
        ])
      ]

  module _ (handle_deletion handle_reconciliation : Resource Spec → Eff W Outcome)
      (deletes : (o : Resource Spec) (v : W)
        → Served client req o
        → is_some o.deletion_timestamp ≡ true
        → Post (Sound (λ u. G o (view v) (view u))) (handle_deletion o) v)
      (reconciles : (o : Resource Spec) (v : W)
        → Served client req o
        → is_some o.deletion_timestamp ≡ false
        → Post (Sound (λ u. G o (view v) (view u))) (handle_reconciliation o) v) where
    -- What a handler has done from the world `v`, it has done from the start.
    handled-Fine :
        (o : Resource Spec) (v : W) (m : Eff W Outcome)
        → Served client req o
        → view v ≡ view w
        → Post (Sound (λ u. G o (view v) (view u))) m v
        → Post Fine m v
    handled-Fine o v m served same h =
        Post-weaken m v
          (λ a u g fine. Concludes.handled o served (subst (λ s. G o s (view u)) same (g fine))) h

    dispatch-Fine : Goes (dispatch r client handle_deletion handle_reconciliation)
    unfolding dispatch
    dispatch-Fine o v served same = elim (Bool-cases (is_some o.deletion_timestamp)) [
      | inl e ↦ rw e (handled-Fine o v _ served same (deletes o v served e))
      | inr e ↦ rw e (handled-Fine o v _ served same (reconciles o v served e))
    ]

    pub reconcile-Fine :
        (finalizer : String)
        → Post Fine (reconcile r client finalizer handle_deletion handle_reconciliation req) w
    unfolding reconcile
    reconcile-Fine finalizer =
        Post-handle (λ x u. (client.get req w ≡ (returned x, u)) × (view u ≡ view w)) _ _ _ w
          (Post-both _ _ _ w (Post-exact _ w) (reading.get_lem req w))
          (λ e u (run, same). elim (Bool-cases e.is_not_found) [
            | inl t ↦ rw t (record { at = λ _. Concludes.missing (e, u, run, t) same })
            | inr f ↦ rw f (record { at = λ n. absurd (cc) })
          ])
          (λ o u (run, same).
            ensure_status-Fine _ (ensure_finalizer-Fine finalizer _ dispatch-Fine) o u (w, u, run)
              same)
