-- ===== src/Tests/Factories.antt =====
-- The factory and its clients, at concrete configurations.
use s3_operator.Prelude.{true, ◌&&◌, ◌==◌, ◌≡◌, refl, negsuc, contains, arith}
use s3_operator.Effect.Returns.{Returns}
use s3_operator.S3.{S3Config}
use s3_operator.S3.Minio.{user_policies_of, set_quota, get_quota}
use s3_operator.S3.Minio.Clients.{MinioS3Client}
use s3_operator.S3.Minio.Implements.Quotas.{get_quota-set_quota}
use s3_operator.S3.Backend.{with_quota}
use s3_operator.Effect.{attempt, ◌>>=◌}
use s3_operator.S3.Minio.Quota.{uint64_of, int64_of}
use s3_operator.S3.Minio.Server.{backend_of}
use s3_operator.S3.Minio.UserPolicies.{user_policies_of-Lists}
use s3_operator.Cluster.Laws.{Connects}
use s3_operator.Tests.Cluster.{main_config}
use s3_operator.Tests.MinioServer.{
  MinioWorld, server, strip, minio_client, admin_client, admin_client-IsAdministering, sdk,
  names_if-Lists,
}
use s3_operator.Tests.OnMinio.{new_server}

abbrev minio_config : S3Config
minio_config = record main_config { endpoint = "minio.example.com" }

abbrev minio_s3 : MinioS3Client MinioWorld
minio_s3 = record { s3_config = minio_config; client = minio_client; admin_client = admin_client }

user_policies_of-Lists_example : contains (user_policies_of "readers") "readers" ≡ true
user_policies_of-Lists_example =
    user_policies_of-Lists (λ p. true && "readers" == p) "readers" (names_if-Lists true) "readers"

abbrev quota_server : MinioWorld
quota_server = (set_quota sdk minio_s3 "data" (negsuc 4) new_server).1

get_quota-set_quota_example :
    (negsuc 4 ≡ negsuc 4)
    × (backend_of strip (server quota_server)
        ≡ with_quota "data" (negsuc 4) (backend_of strip (server new_server)))
unfolding set_quota get_quota attempt ◌>>=◌ int64_of uint64_of
get_quota-set_quota_example =
    get_quota-set_quota strip sdk minio_s3 admin_client-IsAdministering "data" (negsuc 4) (negsuc 4)
      new_server quota_server quota_server (omega arith) refl refl
