-- ===== src/Bucket/Stays.antt =====
-- A bucket that is as its spec says is left as it is.
use s3_operator.Prelude.{true, ◌≡◌, refl, ◌∙◌, ap, subst, none, some, ℤ, IsInt64, =ℤ_refl}
use s3_operator.Effect.{returned, Outcome}
use s3_operator.Effect.Post.{Post, Post-attempt, Post-weaken, Post-run, Sound}
use s3_operator.Api.{Bucket}
use s3_operator.S3.Backend.{Backend}
use s3_operator.S3.Laws.{Reads}
use s3_operator.Cluster.{Reconciler}
use s3_operator.Cluster.Laws.{IsConnected, IsReporting}
use s3_operator.Helpers.Condition.Reports.{report-Sound, report-Leaves}
use s3_operator.PathLoop.Stays.{ensure_paths-Stays}
use s3_operator.Bucket.Target.{IsTarget, IsTarget-chosen}
use s3_operator.Bucket.{
  quota_to_reset_to, set_reconciled_condition, reset_quota, update_paths, update_quota,
  handle_update, handle_reconciliation,
}
use s3_operator.Bucket.Converges.{Realizes, with_client-Sound, handle_reconciliation-Realizes}

module _ {W : Type 0} {view : W → Backend} {r : Reconciler W} (k : IsConnected view r)
    (reporting : IsReporting view r.buckets) (b : Bucket) (q : ℤ)
    (target : quota_to_reset_to b.spec.quota ≡ some q) (s : Backend)
    (real : Realizes b.spec q s) where
  handle_update-Stays : (w : W) → view w ≡ s → Post (Sound (λ v. view v ≡ s)) (handle_update r b) w
  unfolding handle_update update_quota reset_quota update_paths set_reconciled_condition
  handle_update-Stays w same = with_client-Sound k b _ w λ c v lawful here.
      Post-attempt {P = Reads view (λ s. s.quota_of b.spec.name) v} _ _ _ v
        (lawful.get_quota_lem b.spec.name v) (λ e u. report-Sound r r.buckets b _ _ e u)
        λ e u (reads, still).
          rw
            (
              target,
              reads ∙ ap (λ s. s.quota_of b.spec.name) (here ∙ same) ∙ real.quota_set,
              =ℤ_refl q,
            )
            (ensure_paths-Stays r r.buckets c lawful b b.spec.name s b.spec.paths _ u
              real.paths_there (still ∙ here ∙ same)
              λ t now.
                Post-weaken _ t (λ a x e _. e ∙ now)
                  (report-Leaves r r.buckets reporting b _ _ none t))

  handle_reconciliation-Same :
      (w : W) → view w ≡ s → Post (Sound (λ v. view v ≡ s)) (handle_reconciliation r b) w
  unfolding handle_reconciliation set_reconciled_condition
  handle_reconciliation-Same w same = with_client-Sound k b _ w λ c v lawful here.
      Post-attempt {P = Reads view (λ s. s.has_bucket b.spec.name) v} _ _ _ v
        (lawful.bucket_exists_lem b.spec.name v) (λ e u. report-Sound r r.buckets b _ _ e u)
        λ found u (reads, still).
          rw (reads ∙ ap (λ s. s.has_bucket b.spec.name) (here ∙ same) ∙ real.bucket_there)
            (handle_update-Stays u (still ∙ here ∙ same))

module _ {W : Type 0} {view : W → Backend} {r : Reconciler W} (k : IsConnected view r)
    (reporting : IsReporting view r.buckets) where
  -- Where clients are lawful and the API server's calls leave the backend alone, for a bucket
  -- whose quotas convert to int64 values: behind two reconciliations in a row without an error the
  -- backend has the bucket with every path of the spec and the quota that is the override, or the
  -- default if the override is zero, whatever was there before; and a third without an error
  -- leaves the backend as it is.
  pub handle_reconciliation-Stays :
      (b : Bucket) (q : ℤ) (w v u t : W) (first second third : Outcome)
      → IsInt64 b.spec.quota.default.as_int64.0
      → IsInt64 q
      → b.spec.quota.default.as_int64.1 ≡ true
      → IsTarget b.spec.quota q
      → handle_reconciliation r b w ≡ (returned first, v)
      → first.error ≡ none
      → handle_reconciliation r b v ≡ (returned second, u)
      → second.error ≡ none
      → handle_reconciliation r b u ≡ (returned third, t)
      → third.error ≡ none
      → Realizes b.spec q (view u) × (view t ≡ view u)
  handle_reconciliation-Stays b q w v u t first second third dfits fits converts target run fine
        run' fine' run'' fine'' =
      let made =
        handle_reconciliation-Realizes k reporting b q w v first dfits fits converts target run
          fine in
      let real : Realizes b.spec q (view u) =
        subst (λ x. Realizes b.spec x (view u)) (rw made.bucket_there refl)
          (handle_reconciliation-Realizes k reporting b q v u second dfits fits converts target run'
            fine') in
      (
        real,
        Post-run _ u
            (handle_reconciliation-Same k reporting b q (IsTarget-chosen b.spec.quota q target)
              (view u) real u refl)
            third t run'' fine'',
      )
