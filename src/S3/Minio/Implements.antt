-- ===== src/S3/Minio/Implements.antt =====
-- internal/s3/client/impl/minioS3Client.go: the client of a MinIO server keeps what S3Client
-- promises.
mod Objects
pub mod Quotas
mod Admin
use s3_operator.Prelude.{String, ◌≡◌, refl, sym, ap, subst}
use s3_operator.Effect.{Result, ok, err, ok_injective}
use s3_operator.S3.{S3Config}
use s3_operator.S3.Backend.{Backend}
use s3_operator.S3.Laws.{IsLawful}
use s3_operator.S3.Minio.Sdk.{MinioClient, AdminClient, Libraries}
use s3_operator.S3.Minio.Clients.{
  MinioS3Client, generate_minio_client, generate_admin_minio_client, with_client, with_admin_client,
  new_minio_s3_client,
}
use s3_operator.S3.Minio.Server.{ServerState, backend_of, IsServing, IsAdministering, IsSdk}
use s3_operator.S3.Minio.Implements.Objects as Objects
use s3_operator.S3.Minio.Implements.Admin as Admin
use s3_operator.S3.Minio.{minio_s3_client}

module _ {W P : Type 0} (server : W → ServerState) (canonical : String → String)
    (sdk : Libraries W P) where
  -- A client whose libraries keep to the laws.
  record IsBacked (m : MinioS3Client W) : Type 0 where
    libraries : IsSdk server canonical m.s3_config.endpoint sdk
    serving : IsServing server canonical m.client
    administering : IsAdministering server m.admin_client

  backed-IsLawful :
      (m : MinioS3Client W)
      → IsBacked m
      → IsLawful (λ w. backend_of canonical (server w)) (minio_s3_client sdk m)
  unfolding minio_s3_client
  backed-IsLawful m b = record {
    bucket_exists_lem = Objects.bucket_exists_lem sdk m b.libraries b.serving;
    create_bucket_lem = Objects.create_bucket_lem sdk m b.libraries b.serving;
    delete_bucket_lem = Objects.delete_bucket_lem sdk m b.libraries b.serving;
    create_path_lem = Objects.create_path_lem sdk m b.libraries b.serving;
    path_exists_lem = Objects.path_exists_lem sdk m b.libraries b.serving;
    delete_path_lem = Objects.delete_path_lem sdk m b.libraries b.serving;
    get_quota_lem = Admin.get_quota_lem canonical sdk m b.administering;
    set_quota_lem = Admin.set_quota_lem canonical sdk m b.administering;
    get_policy_info_lem = Admin.get_policy_info_lem canonical sdk m b.administering;
    create_or_update_policy_lem = Admin.create_or_update_policy_lem canonical sdk m b.administering;
    delete_policy_lem = Admin.delete_policy_lem canonical sdk m b.administering;
    user_exist_lem = Admin.user_exist_lem canonical sdk m b.administering;
    check_user_credentials_valid_lem =
        Objects.check_user_credentials_valid_lem sdk m b.libraries b.serving;
    create_user_lem = Admin.create_user_lem canonical sdk m b.administering;
    delete_user_lem = Admin.delete_user_lem canonical sdk m b.administering;
    get_user_policies_lem = Admin.get_user_policies_lem canonical sdk m b.administering;
    add_policies_to_user_lem = Admin.add_policies_to_user_lem canonical sdk m b.administering;
    remove_policies_from_user_lem =
        Admin.remove_policies_from_user_lem canonical sdk m b.administering;
  }

  with_admin_client-IsBacked :
      (g : S3Config) (c : MinioClient W) (x : Result (AdminClient W)) (m : MinioS3Client W)
      → IsSdk server canonical g.endpoint sdk
      → IsServing server canonical c
      → ((a : AdminClient W) → x ≡ ok a → IsAdministering server a)
      → with_admin_client g c x ≡ ok m
      → IsBacked m
  unfolding with_admin_client
  with_admin_client-IsBacked g c (ok a) m h serving administering e =
      subst IsBacked (ok_injective e)
        (record { libraries = h; serving = serving; administering = administering a refl })
  with_admin_client-IsBacked g c (err x) m h serving administering e = absurd (cc)

  with_client-IsBacked :
      (g : S3Config) (x : Result (MinioClient W)) (m : MinioS3Client W)
      → IsSdk server canonical g.endpoint sdk
      → ((c : MinioClient W) → x ≡ ok c → IsServing server canonical c)
      → with_client sdk g x ≡ ok m
      → IsBacked m
  unfolding with_client generate_admin_minio_client
  with_client-IsBacked g (ok c) m h serving e =
      with_admin_client-IsBacked g c _ m h (serving c refl) (h.new_admin_client_lem _) e
  with_client-IsBacked g (err x) m h serving e = absurd (cc)

  pub new_minio_s3_client-IsLawful :
      (g : S3Config) (m : MinioS3Client W)
      → IsSdk server canonical g.endpoint sdk
      → new_minio_s3_client sdk g ≡ ok m
      → IsLawful (λ w. backend_of canonical (server w)) (minio_s3_client sdk m)
  unfolding new_minio_s3_client generate_minio_client
  new_minio_s3_client-IsLawful g m h made =
      backed-IsLawful m (with_client-IsBacked g _ m h (h.new_client_lem _) made)

module _ {W P : Type 0} (sdk : Libraries W P) where
  with_admin_client-config :
      (g : S3Config) (c : MinioClient W) (x : Result (AdminClient W)) (m : MinioS3Client W)
      → with_admin_client g c x ≡ ok m
      → m.s3_config ≡ g
  unfolding with_admin_client
  with_admin_client-config g c (ok a) m e = sym (ap (λ m. m.s3_config) (ok_injective e))
  with_admin_client-config g c (err x) m e = absurd (cc)

  with_client-config :
      (g : S3Config) (x : Result (MinioClient W)) (m : MinioS3Client W)
      → with_client sdk g x ≡ ok m
      → m.s3_config ≡ g
  unfolding with_client
  with_client-config g (ok c) m e = with_admin_client-config g c _ m e
  with_client-config g (err x) m e = absurd (cc)

  -- A client keeps the configuration that it was made of.
  pub new_minio_s3_client-config :
      (g : S3Config) (m : MinioS3Client W) → new_minio_s3_client sdk g ≡ ok m → m.s3_config ≡ g
  unfolding new_minio_s3_client
  new_minio_s3_client-config g m e = with_client-config g _ m e
