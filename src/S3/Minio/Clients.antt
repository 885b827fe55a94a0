-- ===== src/S3/Minio/Clients.antt =====
-- internal/s3/client/impl/minioS3Client.go: the clients of the library, from a configuration.
use s3_operator.Prelude.{
  String, ◌++◌, Bool, not, ◌&&◌, ◌||◌, ◌==◌, Option, none, some, List, [], ◌∷◌, is_empty,
  if◌then◌else◌,
}
use s3_operator.Effect.{errorf, Result, ok, err}
use s3_operator.S3.{S3Config}
use s3_operator.S3.Minio.Sdk.{Url, Options, MinioClient, AdminClient, Libraries}

-- `endpoint` of ConstructEndpointFromURL: a port is kept unless it is the scheme's own.
unfoldable pub endpoint_of : Url → String
endpoint_of url =
    if not (url.port == "")
      && (not (url.scheme == "https") || not (url.port == "443"))
      && (not (url.scheme == "http") || not (url.port == "80"))
    then url.hostname ++ (":" ++ url.port)
    else url.hostname

pub record Endpoint : Type 0 where
  pub endpoint : String
  pub port : String
  pub scheme : String

module _ {W P : Type 0} (sdk : Libraries W P) where
  -- `ConstructEndpointFromURL`
  unfoldable pub construct_endpoint_from_url : String → Result Endpoint
  construct_endpoint_from_url url = elim (sdk.parse_url url) [
    | ok parsed ↦
        ok (record { endpoint = endpoint_of parsed; port = parsed.port; scheme = parsed.scheme })
    | err e ↦ err (errorf "cannot detect if url use ssl or not")
  ]

  -- The pool to which the certificates are added.
  unfoldable pub start_pool : Option P → P
  start_pool none = sdk.new_cert_pool
  start_pool (some pool) = pool

  unfoldable pub append_certificates : P → List String → P
  append_certificates pool [] = pool
  append_certificates pool (c ∷ cs) = append_certificates (sdk.append_certs_from_pem pool c) cs

  -- `addTlsClientConfigToMinioOptions` and `addTlsClientConfigToMinioAdminOptions`
  unfoldable pub add_tls_client_config : List String → Options P → Options P
  add_tls_client_config ca_certificates options = record options {
    root_cas = some (append_certificates (start_pool sdk.system_cert_pool) ca_certificates);
  }

  unfoldable pub with_certificates : List String → Options P → Options P
  with_certificates ca_certificates options =
      if not (is_empty ca_certificates)
      then add_tls_client_config ca_certificates options
      else options

  -- `generateMinioClient`
  unfoldable pub generate_minio_client :
      String → Bool → String → String → String → List String → Result (MinioClient W)
  generate_minio_client endpoint is_ssl access_key secret_key region ca_certificates =
      sdk.new_client endpoint (
        with_certificates ca_certificates (record {
          access_key = access_key;
          secret_key = secret_key;
          region = region;
          secure = is_ssl;
          root_cas = none;
        }))

  -- `generateAdminMinioClient`
  unfoldable pub generate_admin_minio_client :
      String → Bool → String → String → List String → Result (AdminClient W)
  generate_admin_minio_client endpoint is_ssl access_key secret_key ca_certificates =
      sdk.new_admin_client endpoint (
        with_certificates ca_certificates (record {
          access_key = access_key;
          secret_key = secret_key;
          region = "";
          secure = is_ssl;
          root_cas = none;
        }))

-- `MinioS3Client`
pub record MinioS3Client (W : Type 0) : Type 0 where
  pub s3_config : S3Config
  pub client : MinioClient W
  pub admin_client : AdminClient W

module _ {W : Type 0} where
  unfoldable pub with_admin_client :
      S3Config → MinioClient W → Result (AdminClient W) → Result (MinioS3Client W)
  with_admin_client g client (ok admin_client) =
      ok (record { s3_config = g; client = client; admin_client = admin_client })
  with_admin_client g client (err e) = err e

module _ {W P : Type 0} (sdk : Libraries W P) where
  unfoldable pub with_client : S3Config → Result (MinioClient W) → Result (MinioS3Client W)
  with_client g (ok client) = with_admin_client g client (
      generate_admin_minio_client sdk g.endpoint g.secure g.access_key g.secret_key
        g.ca_certificates_base64)
  with_client g (err e) = err e

  -- `NewMinioS3Client`
  unfoldable pub new_minio_s3_client : S3Config → Result (MinioS3Client W)
  new_minio_s3_client g = with_client g (
      generate_minio_client sdk g.endpoint g.secure g.access_key g.secret_key g.region
        g.ca_certificates_base64)
