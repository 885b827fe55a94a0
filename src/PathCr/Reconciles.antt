-- ===== src/PathCr/Reconciles.antt =====
-- internal/controller/path/reconcile.go, Reconcile: what a request for a Path brings about, from
-- the first read of the object to the last report.
use s3_operator.Api.{PathCr}
use s3_operator.S3.Backend.{Backend}
use s3_operator.Lifecycle.Concludes.{Concludes}
