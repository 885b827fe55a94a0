-- ===== src/Bucket/Settles.antt =====
-- internal/controller/bucket/reconcile.go: if the calls go through, one run reconciles a bucket.
use s3_operator.Effect.Returns.{Returns}
use s3_operator.Effect.Settles.{Settles}
use s3_operator.Api.{Bucket}
use s3_operator.S3.Backend.{Backend}
