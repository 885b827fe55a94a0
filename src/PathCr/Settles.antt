-- ===== src/PathCr/Settles.antt =====
-- internal/controller/path/reconcile.go: if the calls go through, one run reconciles a Path.
use s3_operator.Effect.Returns.{Returns}
use s3_operator.Effect.Settles.{Settles}
use s3_operator.Api.{PathCr}
use s3_operator.S3.Backend.{Backend}
