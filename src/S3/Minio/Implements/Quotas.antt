-- ===== src/S3/Minio/Implements/Quotas.antt =====
-- internal/s3/client/impl/minioS3Client.go: SetQuota, and then GetQuota.
use s3_operator.Prelude.{String, ◌≡◌, refl, ◌∙◌, ap, ℤ, IsInt64, eq_refl}
use s3_operator.Effect.{ok, returned}
use s3_operator.Effect.Post.{Post-run}
use s3_operator.S3.Backend.{with_quota}
use s3_operator.S3.Minio.Sdk.{Libraries}
use s3_operator.S3.Minio.Clients.{MinioS3Client}
use s3_operator.S3.Minio.Server.{ServerState, backend_of, IsAdministering}
use s3_operator.S3.Minio.Implements.Admin.{get_quota_lem, set_quota_lem}
use s3_operator.S3.Minio.{get_quota, set_quota}

module _ {W P : Type 0} {server : W → ServerState} (canonical : String → String)
    (sdk : Libraries W P) (m : MinioS3Client W)
    (administering : IsAdministering server m.admin_client) where
  -- Where the admin client works on a MinIO server: if SetQuota of an int64 quota returns no error,
  -- and then GetQuota of the same bucket none, then GetQuota gives that quota, though both convert
  -- it, and on the backend that quota has been set and nothing else has changed.
  pub get_quota-set_quota :
      (n : String) (q q' : ℤ) (w v u : W)
      → IsInt64 q
      → set_quota sdk m n q w ≡ (returned (ok tt), v)
      → get_quota sdk m n v ≡ (returned (ok q'), u)
      → (q' ≡ q)
        × (backend_of canonical (server u) ≡ with_quota n q (backend_of canonical (server w)))
  get_quota-set_quota n q q' w v u fits sets gets =
      let put = Post-run _ w (set_quota_lem canonical sdk m administering n q w fits) _ v sets in
      let (reads, kept) = Post-run _ v (get_quota_lem canonical sdk m administering n v) _ u gets in
      (reads ∙ ap (λ s. s.quota_of n) put ∙ rw (eq_refl n) refl, kept ∙ put)
