-- ===== src/Bucket/Guard/Serves.antt =====
-- Any number of requests, one after the other, leave every bucket guarded that they have made.
use s3_operator.Prelude.{
  String, Bool, true, ◌≡◌, inl, inr, sym, ◌∙◌, ap, subst, none, some, is_some, is_empty, List, [],
  ◌∷◌, Bool-cases,
}
use mathlib.Core.Bool.{false≢true}
use s3_operator.Effect.{Eff, Outcome}
use s3_operator.Effect.Post.{Post, Post-always, Post-weaken}
use s3_operator.Effect.Keeps.{Keeps, attempt-Keeps}
use s3_operator.Api.{Bucket, S3Instance, NamespacedName}
use s3_operator.Cluster.{Reconciler}
use s3_operator.Lifecycle
use s3_operator.Lifecycle.{
  unless_failed, after_update, re_fetch, ensure_status, ensure_finalizer, dispatch, release,
}
use s3_operator.Bucket.{bucket_finalizer, handle_deletion, handle_reconciliation, reconcile}
use s3_operator.Bucket.Guard.{Stored, Site, stored_of, key_of, Guarded, IsGuarding}
use s3_operator.Bucket.Guard.Calls.{Fixes-Keeps}
use s3_operator.Bucket.Guard.Handlers.{handle_reconciliation-Keeps}
use s3_operator.Bucket.Guard.Writes.{
  At, with_finalizers, Good, update-Good, after_update-Good, handle_deletion-Good,
}

module _ {W : Type 0} {site : W → Site} {r : Reconciler W} {I : S3Instance → Type 0}
    (k : IsGuarding site I r) (before : String → Bool) where
  module _ (req : NamespacedName) where
    -- What follows, for an object in hand.
    abbrev Goes : (Bucket → Eff W Outcome) → Type 0
    Goes rest =
        (b : Bucket) (w : W)
        → key_of b ≡ req
        → Good k before w
        → At b (site w)
        → Good k before (rest b w).1

    -- An object that is read again, of a site of which `P` holds.
    re_fetch-Good :
        (P : Site → Type 0) (rest : Bucket → Eff W Outcome) (w : W)
        → Good k before w
        → P (site w)
        → ((b : Bucket) (v : W)
            → key_of b ≡ req
            → Good k before v
            → At b (site v)
            → P (site v)
            → Good k before (rest b v).1)
        → Good k before (re_fetch r r.buckets req rest w).1
    unfolding re_fetch
    re_fetch-Good P rest w g p h =
        attempt-Keeps {I = λ v. Good k before v × P (site v)} _ _ _ w (λ v (g', _). g')
          (Fixes-Keeps (λ s. Guarded r.machinery before s × P s) (r.buckets.get req) (k.get_lem req)
            w (g, p))
          (k.got_lem req w) (λ e v (g', _). g')
          λ b v (g', p') (named, there).
            h b v named g' (subst (λ n. (site v).objects n ≡ some (stored_of b)) (sym named) there)
              p'

    ensure_status-Good :
        (rest : Bucket → Eff W Outcome)
        → Goes rest
        → Goes (λ b. ensure_status r r.buckets req b rest)
    unfolding ensure_status
    ensure_status-Good rest h b w named g there = elim (Bool-cases (is_empty b.conditions)) [
      | inl e ↦ rw e (
          after_update-Good k before (λ _. Unit) _ _ w
            (Fixes-Keeps (Guarded r.machinery before) (r.buckets.update_status _)
              (k.update_status_lem _) w g)
            (Post-always _ w (λ a v _. tt))
            λ v g' _. re_fetch-Good (λ _. Unit) rest v g' tt (λ b u n g'' at _. h b u n g'' at))
      | inr e ↦ rw e (h b w named g there)
    ]

    -- The finalizer is there.
    abbrev Has : Site → Type 0
    Has s =
        (o : Stored) × (s.objects req ≡ some o)
        × (r.machinery.contains_finalizer o.finalizers bucket_finalizer ≡ true)

    -- What follows, for an object in hand that has the finalizer.
    abbrev GoesOn : (Bucket → Eff W Outcome) → Type 0
    GoesOn rest =
        (b : Bucket) (w : W)
        → r.machinery.contains_finalizer b.finalizers bucket_finalizer ≡ true
        → Good k before w
        → At b (site w)
        → Good k before (rest b w).1

    -- The object that is read behind the write has the finalizer that was written.
    written-Has :
        (b : Bucket) (s : Site)
        → key_of b ≡ req
        → At b s
        → Has s
        → r.machinery.contains_finalizer b.finalizers bucket_finalizer ≡ true
    written-Has b s named there (o, at, has) =
        let one : o ≡ stored_of b = cc (sym at ∙ ap s.objects (sym named) ∙ there) in
        subst (λ x. r.machinery.contains_finalizer x.finalizers bucket_finalizer ≡ true) one has

    -- The finalizer is written, if the write has gone through.
    added-Has :
        (b : Bucket) (w : W)
        → key_of b ≡ req
        → Post
            (λ x v. x.1 ≡ none → Has (site v))
            (r.buckets.update
              (with_finalizers b (r.machinery.add_finalizer b.finalizers bucket_finalizer).0))
            w
    added-Has b w named =
        let added = k.added_lem b.finalizers bucket_finalizer in
        Post-weaken _ w
          (λ x v h fine. elim (h fine) [
            | inl at ↦ (
              stored_of
                  (with_finalizers b (r.machinery.add_finalizer b.finalizers bucket_finalizer).0),
              subst
                  (λ n.
                    (site v).objects n
                    ≡ some (
                        stored_of (
                          with_finalizers b
                            (r.machinery.add_finalizer b.finalizers bucket_finalizer).0)))
                  named at,
              added,
            )
            | inr nil ↦ absurd (
                false≢true (
                  sym (k.none_lem bucket_finalizer)
                  ∙ ap (λ fs. r.machinery.contains_finalizer fs bucket_finalizer) (sym nil)
                  ∙ added))
          ])
          (k.updated_lem _ w)

    ensure_finalizer-Good :
        (rest : Bucket → Eff W Outcome)
        → GoesOn rest
        → Goes (λ b. ensure_finalizer r r.buckets bucket_finalizer req b rest)
    unfolding ensure_finalizer
    ensure_finalizer-Good rest h b w named g there =
        elim (Bool-cases (r.machinery.contains_finalizer b.finalizers bucket_finalizer)) [
          | inl e ↦ rw e (h b w e g there)
          | inr e ↦
              rw e (elim (Bool-cases (r.machinery.add_finalizer b.finalizers bucket_finalizer).1) [
                | inl a ↦ rw a (
                    after_update-Good k before Has _ _ w
                      (update-Good k before b _ w g there
                        (inl (k.added_lem b.finalizers bucket_finalizer)))
                      (added-Has b w named)
                      λ v g' p.
                        re_fetch-Good Has rest v g' p
                          λ c u n g'' at p'. h c u (written-Has c (site u) n at p') g'' at)
                | inr a ↦ rw a g
              ])
        ]

    dispatch-Good : GoesOn (dispatch r r.buckets (handle_deletion r) (handle_reconciliation r))
    unfolding dispatch
    dispatch-Good b w has g there = elim (Bool-cases (is_some b.deletion_timestamp)) [
      | inl e ↦ rw e (handle_deletion-Good k before b w has g there)
      | inr e ↦ rw e (let (g', _) = handle_reconciliation-Keeps k before b has w (g, there) in g')
    ]

    reconcile-Good : Keeps (Good k before) Outcome (reconcile r req)
    unfolding reconcile Lifecycle.reconcile
    reconcile-Good w g =
        attempt-Keeps {I = Good k before} _ _ _ w (λ v j. j)
          (Fixes-Keeps (Guarded r.machinery before) (r.buckets.get req) (k.get_lem req) w g)
          (k.got_lem req w) (λ e v g'. g')
          λ b v g' (named, there).
            ensure_status-Good _ (ensure_finalizer-Good _ dispatch-Good) b v named g'
              (subst (λ n. (site v).objects n ≡ some (stored_of b)) (sym named) there)

-- The requests of a queue, one after the other; each is a run of Reconcile, however it ends.
unfoldable pub serve : {W : Type 0} → Reconciler W → List NamespacedName → W → W
serve r [] w = w
serve r (req ∷ reqs) w = serve r reqs (reconcile r req w).1

module _ {W : Type 0} {site : W → Site} {r : Reconciler W} {I : S3Instance → Type 0}
    (k : IsGuarding site I r) where
  serve-Good :
      (before : String → Bool) (reqs : List NamespacedName) (w : W)
      → Guarded r.machinery before (site w)
      → Guarded r.machinery before (site (serve r reqs w))
  unfolding serve
  serve-Good before [] w g = g
  serve-Good before (req ∷ reqs) w g =
      serve-Good before reqs (reconcile r req w).1 (reconcile-Good k before req w g)

  -- Where a call of the API server or of a client does what it says or nothing, however it ends,
  -- the API server gives an object as it has it, and the instances that are read have the deletion
  -- of buckets enabled: behind any requests that are served one after the other, and whatever
  -- fails or panics in them, a bucket that is on the backend was there before them, or a Bucket
  -- object names it and has the operator's finalizer.
  pub serve-Guarded :
      (reqs : List NamespacedName) (w : W)
      → Guarded r.machinery (site w).buckets (site (serve r reqs w))
  serve-Guarded reqs w = serve-Good (site w).buckets reqs w (λ n h. inl h)
