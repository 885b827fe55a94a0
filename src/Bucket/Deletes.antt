-- ===== src/Bucket/Deletes.antt =====
-- What a bucket's deletion brings about on the backend, if it returns no error.
use s3_operator.Prelude.{Bool, true, ◌≡◌}
use s3_operator.Effect.Post.{Post, Sound}
use s3_operator.Api.{Bucket}
use s3_operator.S3.Backend.{Backend, BucketRemoved}
use s3_operator.Cluster.{Reconciler}
use s3_operator.Cluster.Laws.{IsConnected, IsUpdating}
use s3_operator.Helpers.Client.Gives.{Permits, Permitted, for_ressource-Permitted}
use s3_operator.Lifecycle.Deletes.{handle_deletion-Sound}
use s3_operator.Bucket.{bucket_finalizer, finalize_bucket, handle_deletion}

module _ {W : Type 0} {view : W → Backend} {r : Reconciler W} (k : IsConnected view r)
    (updating : IsUpdating view r.buckets) (enabled : Bool)
    (permits : Permits (λ g. g.bucket_deletion_enabled) enabled r) where
  abbrev Did : Bucket → W → W → Type 0
  Did b w v = Permitted enabled (BucketRemoved b.spec.name) (view w) (view v)

  pub handle_deletion-Did :
      (b : Bucket) (w : W)
      → r.machinery.contains_finalizer b.finalizers bucket_finalizer ≡ true
      → Post (Sound (Did b w)) (handle_deletion r b) w
  unfolding handle_deletion finalize_bucket
  handle_deletion-Did b w has =
      handle_deletion-Sound r r.buckets updating
        (Permitted enabled (BucketRemoved b.spec.name) (view w)) _ _ _ b w has
        (for_ressource-Permitted k (λ g. g.bucket_deletion_enabled) enabled permits
          (BucketRemoved b.spec.name) (λ c. c.delete_bucket b.spec.name)
          (λ c u lawful. lawful.delete_bucket_lem b.spec.name u) b.namespace b.spec.s3_instance_ref
          w)
