-- ===== src/S3/Factory.antt =====
-- internal/s3/factory/impl/s3factoryImpl.go: the client for a provider.
pub mod Connects
use s3_operator.Prelude.{String, ◌++◌, ◌==◌, false, if◌then◌else◌}
use s3_operator.Effect.{errorf, Result, ok, err, Eff, pure, attempt}
use s3_operator.S3.{S3Config, S3Client, S3Factory}
use s3_operator.S3.Minio.{minio_s3_client}
use s3_operator.S3.Minio.Sdk.{Libraries}
use s3_operator.S3.Minio.Clients.{Endpoint, construct_endpoint_from_url, new_minio_s3_client}
use s3_operator.S3.Mocked.{new_mocked_s3_client, mocked_s3_client}

-- The configuration behind the writes of `GenerateS3Client`. The caller does not read it again.
abbrev pub located : Endpoint → S3Config → S3Config
located e g = record g {
  secure = e.scheme == "https";
  endpoint = e.endpoint;
  scheme = e.scheme;
  path_style = false;
  port = e.port;
}

module _ {W P : Type 0} (sdk : Libraries W P) where
  -- `NewMinioS3Client`, of which the factory returns the client as an S3Client.
  unfoldable pub minio_client_of : S3Config → Eff W (Result (S3Client W))
  minio_client_of g =
      attempt (pure (new_minio_s3_client sdk g)) (λ e. pure (err e))
        λ m. pure (ok (minio_s3_client sdk m))

  unfoldable pub client_of_provider : String → S3Config → Eff W (Result (S3Client W))
  client_of_provider s3_provider g =
      if s3_provider == "mockedS3Provider"
      then pure (ok (mocked_s3_client (new_mocked_s3_client g)))
      else if s3_provider == "minio"
      then minio_client_of g
      else pure (err (errorf ("s3 provider " ++ (s3_provider ++ " not supported"))))

  -- `GenerateS3Client`
  unfoldable pub generate_s3_client : String → S3Config → Eff W (Result (S3Client W))
  generate_s3_client s3_provider g =
      attempt (pure (construct_endpoint_from_url sdk g.s3_url)) (λ e. pure (err e))
        λ e. client_of_provider s3_provider (located e g)

  -- `NewS3Factory`
  unfoldable pub new_s3_factory : S3Factory W
  new_s3_factory = record { generate_s3_client = generate_s3_client }
