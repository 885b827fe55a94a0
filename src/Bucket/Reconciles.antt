-- ===== src/Bucket/Reconciles.antt =====
-- internal/controller/bucket/reconcile.go, Reconcile: what a request for a bucket brings about,
-- from the first read of the object to the last report.
use s3_operator.Prelude.{Bool, true, ◌≡◌, refl, none, ℤ, IsInt64}
use s3_operator.Effect.{returned, Outcome}
use s3_operator.Effect.Post.{Post-weaken}
use s3_operator.Api.{Bucket, NamespacedName}
use s3_operator.S3.Backend.{Backend, BucketRemoved}
use s3_operator.Cluster.{Reconciler}
use s3_operator.Cluster.Laws.{IsConnected, IsReading, IsUpdating, IsReporting}
use s3_operator.Helpers.Client.Gives.{Permits, Permitted}
use s3_operator.Lifecycle.Deletes.{handle_deletion-passes}
use s3_operator.Lifecycle.Concludes.{Served, Concludes}
use s3_operator.Lifecycle.Handles.{HandledBy, reconcile-Handled}
use s3_operator.Bucket.{bucket_finalizer, handle_deletion, reconcile}
use s3_operator.Bucket.Target.{IsTarget, IsTarget-chosen}
use s3_operator.Bucket.Converges.{Realizes, quota_aimed_at, handle_reconciliation-Sound}
use s3_operator.Bucket.Deletes.{handle_deletion-Did}

-- The quotas of a bucket convert to int64 values.
pub record Converts (b : Bucket) : Type 0 where
  pub default_fits : IsInt64 b.spec.quota.default.as_int64.0
  pub default_converts : b.spec.quota.default.as_int64.1 ≡ true
  pub target : ℤ
  pub target_fits : IsInt64 target
  pub target_is : IsTarget b.spec.quota target

-- The bucket of a spec with all its paths, and the quota that the spec asks for.
abbrev pub Reached : Bucket → Backend → Backend → Type 0
Reached b s t = (q : ℤ) × IsTarget b.spec.quota q × Realizes b.spec (quota_aimed_at b q s) t

module _ {W : Type 0} {view : W → Backend} {r : Reconciler W} (k : IsConnected view r)
    (reading : IsReading view r.buckets) (updating : IsUpdating view r.buckets)
    (reporting : IsReporting view r.buckets) (enabled : Bool)
    (permits : Permits (λ g. g.bucket_deletion_enabled) enabled r) where
  -- Where clients are lawful, the API server's calls leave the backend alone, every bucket that it
  -- serves for the request has quotas that convert to int64 values, and the deletion of buckets is
  -- enabled for all the instances that are read, or for none: a run of Reconcile that returns no
  -- error has ended in one of three ways. The API server had no such bucket, and the backend is as
  -- it was; or the request is to be repeated, and the backend is as it was; or a bucket that was
  -- served has been handled. If that is not marked for deletion, the backend has it with every path
  -- of its spec, and its quota is the override, or the default if the override is zero, if it was
  -- there before, and the default if it was made. If it is marked and has the operator's finalizer,
  -- it is gone where deletion is enabled, and the backend is as it was where not. If it is marked
  -- and has no such finalizer, the backend is as it was.
  pub reconcile-Concludes :
      (req : NamespacedName) (w v : W) (a : Outcome)
      → ((b : Bucket) → Served r.buckets req b → Converts b)
      → reconcile r req w ≡ (returned a, v)
      → a.error ≡ none
      → Concludes r.buckets req
          (HandledBy r bucket_finalizer
            (λ b. Permitted enabled (BucketRemoved b.spec.name))
            Reached)
          view
          w
          a
          v
  unfolding reconcile handle_deletion
  reconcile-Concludes req w v a converts =
      reconcile-Handled r r.buckets reading updating reporting bucket_finalizer _ _ req _ _
        (λ o u served. handle_deletion-Did k updating enabled permits o u)
        (λ b u e. handle_deletion-passes r r.buckets updating (λ s. s ≡ view u) _ _ _ b u e refl)
        (λ b u served.
          let c = converts b served in
          Post-weaken _ u (λ x t h fine. (c.target, c.target_is, h fine))
            (handle_reconciliation-Sound k reporting b c.target u c.default_fits c.target_fits
              c.default_converts (IsTarget-chosen b.spec.quota c.target c.target_is)))
        w v a
