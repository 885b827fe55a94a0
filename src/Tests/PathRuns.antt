-- ===== src/Tests/PathRuns.antt =====
-- Runs of the controller of Paths, by the operator with its own factory on a MinIO server.
use s3_operator.Prelude.{true, ◌≡◌, ◌==◌, ◌&&◌}
use s3_operator.Effect.Returns.{Returns}
use s3_operator.Api.{PathCr}
use s3_operator.S3.{S3Client}
use s3_operator.S3.Responds.{IsResponsive}
use s3_operator.S3.Minio
use s3_operator.Helpers.Condition
use s3_operator.Lifecycle
use s3_operator.Lifecycle.Concludes.{Concludes}
use s3_operator.PathCr
use s3_operator.Tests.MinioServer.{MinioWorld}
use s3_operator.Tests.Lifecycles.{old_server}

-- The server with an object for the path.
abbrev path_server : MinioWorld
path_server = record old_server {
  disk = record old_server.disk { has_object = λ b k. b == "data" && k == "results/.keep" };
}

-- A client that answers, of an instance with the deletion of paths enabled.
abbrev Removing : S3Client MinioWorld → Type 0
Removing c = IsResponsive c × (c.get_config.path_deletion_enabled ≡ true)
