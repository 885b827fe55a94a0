-- ===== src/Lifecycle/Deletes.antt =====
-- A deletion that returns no error has done what the kind's `finalize` does; its end, where the
-- finalizer is taken off, leaves the backend alone.
use s3_operator.Prelude.{
  String, true, false, ◌≡◌, subst, sym, Bool-cases, inl, inr, Option, none, some,
}
use s3_operator.Effect.{Error, Result, Eff, Outcome}
use s3_operator.Effect.Post.{OnOk, Post, Post-bind, Post-attempt, Sound}
use s3_operator.Api.{Resource}
use s3_operator.S3.Backend.{Backend}
use s3_operator.Cluster.{ResourceClient, Reconciler}
use s3_operator.Cluster.Laws.{IsUpdating}
use s3_operator.Helpers.Condition.Reports.{report-Sound}
use s3_operator.Lifecycle.{unless_failed, after_update, release, handle_deletion}

module _ {W : Type 0} {G : W → Type 0} where
  pub unless_failed-Sound :
      (o : Option Error) (rest : Eff W Outcome) (w : W)
      → Post (Sound G) rest w
      → Post (Sound G) (unless_failed o rest) w
  unless_failed-Sound (some e) rest w h = record { at = λ n. absurd (cc) }
  unless_failed-Sound none rest w h = h

module _ {W Spec : Type 0} (r : Reconciler W) (client : ResourceClient W Spec) {view : W → Backend}
    (updating : IsUpdating view client) (G : Backend → Type 0) where
  abbrev Keeping : Outcome → W → Type 0
  Keeping = Sound (λ v. G (view v))

  pub release-Sound :
      (finalizer : String) (o : Resource Spec) (w : W)
      → G (view w)
      → Post Keeping (release r client finalizer o) w
  unfolding release after_update
  release-Sound finalizer o w g =
      elim (Bool-cases (r.machinery.remove_finalizer o.finalizers finalizer).1) [
        | inl e ↦ rw e (
            Post-bind {P = λ _ v. view v ≡ view w} _ _ w (updating.update_lem _ w)
              λ x v same. unless_failed-Sound x.1 _ v (record { at = λ _. subst G (sym same) g }))
        | inr e ↦ rw e (record { at = λ _. g })
      ]

  -- Of an object that has the finalizer.
  pub handle_deletion-Sound :
      (finalizer message : String) (finalize : Resource Spec → Eff W (Result (Unit {0})))
      (o : Resource Spec) (w : W)
      → r.machinery.contains_finalizer o.finalizers finalizer ≡ true
      → Post (OnOk (λ _ v. G (view v))) (finalize o) w
      → Post Keeping (handle_deletion r client finalizer message finalize o) w
  unfolding handle_deletion
  handle_deletion-Sound finalizer message finalize o w has done_by = rw has (
      Post-attempt {P = λ _ v. G (view v)} _ _ _ w done_by (λ e v. report-Sound r client o _ _ e v)
        (λ _ v g. release-Sound finalizer o v g))

  -- An object without the finalizer is left to others.
  pub handle_deletion-passes :
      (finalizer message : String) (finalize : Resource Spec → Eff W (Result (Unit {0})))
      (o : Resource Spec) (w : W)
      → r.machinery.contains_finalizer o.finalizers finalizer ≡ false
      → G (view w)
      → Post Keeping (handle_deletion r client finalizer message finalize o) w
  unfolding handle_deletion
  handle_deletion-passes finalizer message finalize o w has g = rw has (record { at = λ _. g })
