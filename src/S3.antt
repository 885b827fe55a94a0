-- ===== src/S3.antt =====
-- internal/s3/client/s3client.go and internal/s3/factory/s3factory.go: the interface through which
-- the controllers reach an S3 backend, and the configuration of a client.
pub mod Backend
pub mod Laws
pub mod Responds
pub mod Minio
pub mod Mocked
pub mod Factory
use s3_operator.Prelude.{String, Bool, Option, List, ℤ}
use s3_operator.Effect.{Error, Result, Eff}

pub record S3Config : Type 0 where
  pub s3_provider : String
  pub s3_url : String
  pub region : String
  pub access_key : String
  pub secret_key : String
  pub ca_certificates_base64 : List String
  pub allowed_namespaces : List String
  pub bucket_deletion_enabled : Bool
  pub s3_user_deletion_enabled : Bool
  pub path_deletion_enabled : Bool
  pub policy_deletion_enabled : Bool
  pub secure : Bool
  pub endpoint : String
  pub port : String
  pub scheme : String
  pub path_style : Bool

-- madmin.PolicyInfo: the operator reads the raw JSON of `Policy`.
pub record PolicyInfo : Type 0 where
  pub policy : String

-- The interface S3Client. `path_exists` returns its Boolean beside the error, since one caller
-- reads it whatever the error is; the other calls' values are read only without an error.
pub record S3Client (W : Type 0) : Type 0 where
  pub bucket_exists : String → Eff W (Result Bool)
  pub create_bucket : String → Eff W (Result (Unit {0}))
  pub delete_bucket : String → Eff W (Result (Unit {0}))
  pub create_path : String → String → Eff W (Result (Unit {0}))
  pub path_exists : String → String → Eff W (Bool × Option Error)
  pub delete_path : String → String → Eff W (Result (Unit {0}))
  pub get_quota : String → Eff W (Result ℤ)
  pub set_quota : String → ℤ → Eff W (Result (Unit {0}))
  pub policy_exist : String → Eff W (Result Bool)
  pub delete_policy : String → Eff W (Result (Unit {0}))
  pub get_policy_info : String → Eff W (Result (Option PolicyInfo))
  pub create_or_update_policy : String → String → Eff W (Result (Unit {0}))
  pub user_exist : String → Eff W (Result Bool)
  pub check_user_credentials_valid : String → String → String → Eff W (Result Bool)
  pub add_service_account_for_user : String → String → String → Eff W (Result (Unit {0}))
  pub create_user : String → String → Eff W (Result (Unit {0}))
  pub delete_user : String → Eff W (Result (Unit {0}))
  pub get_user_policies : String → Eff W (Result (List String))
  pub add_policies_to_user : String → List String → Eff W (Result (Unit {0}))
  pub remove_policies_from_user : String → List String → Eff W (Result (Unit {0}))
  pub get_config : S3Config
  pub list_buckets : Eff W (Result (List String))

-- The interface S3Factory.
pub record S3Factory (W : Type 0) : Type 0 where
  pub generate_s3_client : String → S3Config → Eff W (Result (S3Client W))
