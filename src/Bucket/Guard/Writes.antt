-- ===== src/Bucket/Guard/Writes.antt =====
-- The writes of a Bucket object, and its deletion, keep the invariant.
use s3_operator.Prelude.{
  String, Bool, true, false, ◌≡◌, ◌⊎◌, inl, inr, refl, Option, none, some, List, Bool-cases,
}
use s3_operator.Effect.{Error, Eff, Outcome}
use s3_operator.Effect.Post.{Post, Post-always}
use s3_operator.Effect.Keeps.{attempt-Keeps, bind-Keeps}
use s3_operator.Api.{Bucket, S3Instance}
use s3_operator.Cluster.{Reconciler}
use s3_operator.Lifecycle
use s3_operator.Lifecycle.{
  unless_failed, after_update, re_fetch, ensure_status, ensure_finalizer, dispatch, release,
}
use s3_operator.Bucket.{bucket_finalizer, handle_deletion, set_reconciled_condition}
use s3_operator.Bucket.Guard.{Site, stored_of, key_of, Guarded, IsGuarding}
use s3_operator.Bucket.Guard.Calls.{Updates-Guarded}
use s3_operator.Bucket.Guard.Handlers.{Safe, reporting, finalize_bucket-Keeps, finalize_bucket-gone}

-- The object in hand, as the API server has it.
abbrev pub At : Bucket → Site → Type 0
At b s = s.objects (key_of b) ≡ some (stored_of b)

abbrev pub with_finalizers : Bucket → List String → Bucket
with_finalizers b fs = record b { meta = record b.meta { finalizers = fs } }

module _ {W : Type 0} {site : W → Site} {r : Reconciler W} {I : S3Instance → Type 0}
    (k : IsGuarding site I r) (before : String → Bool) where
  abbrev pub Good : W → Type 0
  Good w = Guarded r.machinery before (site w)

  unless_failed-Good :
      (o : Option Error) (rest : Eff W Outcome) (w : W)
      → Good w
      → (o ≡ none → Good (rest w).1)
      → Good (unless_failed o rest w).1
  unless_failed-Good (some e) rest w g h = g
  unless_failed-Good none rest w g h = h refl

  -- A write of an object, and what follows if it has gone through.
  pub after_update-Good :
      (Q : Site → Type 0) (write : Eff W (Bucket × Option Error)) (rest : Eff W Outcome) (w : W)
      → Good (write w).1
      → Post (λ x v. x.1 ≡ none → Q (site v)) write w
      → ((v : W) → Good v → Q (site v) → Good (rest v).1)
      → Good (after_update r r.buckets write rest w).1
  unfolding after_update
  after_update-Good Q write rest w g q h =
      bind-Keeps {I = Good} write _ w (λ v j. j) g q
        λ x v g' q'. unless_failed-Good x.1 rest v g' (λ n. h v g' (q' n))

  -- A write of other finalizers.
  pub update-Good :
      (b : Bucket) (fs : List String) (w : W)
      → Good w
      → At b (site w)
      → (r.machinery.contains_finalizer fs bucket_finalizer ≡ true)
        ⊎ ((site w).buckets b.spec.name ≡ false)
      → Good (r.buckets.update (with_finalizers b fs) w).1
  update-Good b fs w g there allowed =
      Updates-Guarded r.machinery before (with_finalizers b fs) (site w) g (stored_of b) _ there
        refl (k.none_lem bucket_finalizer) allowed (k.update_lem _ w)

  release-Good :
      (b : Bucket) (w : W)
      → Good w
      → At b (site w)
      → (site w).buckets b.spec.name ≡ false
      → Good (release r r.buckets bucket_finalizer b w).1
  unfolding release
  release-Good b w g there gone =
      elim (Bool-cases (r.machinery.remove_finalizer b.finalizers bucket_finalizer).1) [
        | inl e ↦ rw e (
            after_update-Good (λ _. Unit) _ _ w (update-Good b _ w g there (inr gone))
              (Post-always _ w (λ a v _. tt)) (λ v g' _. g'))
        | inr e ↦ rw e g
      ]

  pub handle_deletion-Good :
      (b : Bucket) (w : W)
      → r.machinery.contains_finalizer b.finalizers bucket_finalizer ≡ true
      → Good w
      → At b (site w)
      → Good (handle_deletion r b w).1
  unfolding handle_deletion Lifecycle.handle_deletion set_reconciled_condition
  handle_deletion-Good b w has g there = rw has (
      attempt-Keeps {I = Safe k before b has} _ _ _ w (λ v (g', _). g')
        (finalize_bucket-Keeps k before b has w (g, there)) (finalize_bucket-gone k before b has w)
        (λ e v safe. let (g', _) = reporting k before b has _ _ (some e) v safe in g')
        (λ _ v (g', there') gone. release-Good b v g' there' gone))
