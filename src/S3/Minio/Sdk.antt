-- ===== src/S3/Minio/Sdk.antt =====
-- The libraries that internal/s3/client/impl/minioS3Client.go calls, as interfaces: minio-go and
-- madmin-go v4, net/url, and crypto/x509. They are third-party code.
use s3_operator.Prelude.{ℕ, String, Bool, Option, List}
use s3_operator.Effect.{Result, Eff}
use s3_operator.S3.{PolicyInfo}

-- A parsed URL: `Scheme`, `Hostname()` and `Port()`.
pub record Url : Type 0 where
  pub scheme : String
  pub hostname : String
  pub port : String

-- `minio.Options` and `madmin.Options`, with `Creds` as static keys and `Transport` by the pool of
-- root certificates that it is given. `P` is the type of such pools; an administrator's client has
-- no region.
pub record Options (P : Type 0) : Type 0 where
  pub access_key : String
  pub secret_key : String
  pub region : String
  pub secure : Bool
  pub root_cas : Option P

pub record BucketInfo : Type 0 where
  pub name : String

-- `minio.Client`. The second argument of `make_bucket` is `MakeBucketOptions.Region`; the last one
-- of `put_object` is what the reader holds.
pub record MinioClient (W : Type 0) : Type 0 where
  pub bucket_exists : String → Eff W (Result Bool)
  pub make_bucket : String → String → Eff W (Result (Unit {0}))
  pub list_buckets : Eff W (Result (List BucketInfo))
  pub remove_bucket : String → Eff W (Result (Unit {0}))
  pub put_object : String → String → String → Eff W (Result (Unit {0}))
  pub stat_object : String → String → Eff W (Result (Unit {0}))
  pub remove_object : String → String → Eff W (Result (Unit {0}))

pub data QuotaType : Type 0 where
  hard_quota : QuotaType

-- `madmin.BucketQuota`; the size is a uint64.
pub record BucketQuota : Type 0 where
  pub size : ℕ
  pub type : QuotaType

pub record NamedPolicy : Type 0 where
  pub name : String

-- `madmin.UserInfo`: the names of the policies are one text.
pub record UserInfo : Type 0 where
  pub policy_name : String

pub record AddServiceAccountReq : Type 0 where
  pub access_key : String
  pub secret_key : String
  pub name : String
  pub description : String
  pub target_user : String

pub record PolicyAssociationReq : Type 0 where
  pub policies : List String
  pub user : String

-- `madmin.AdminClient`
pub record AdminClient (W : Type 0) : Type 0 where
  pub get_bucket_quota : String → Eff W (Result BucketQuota)
  pub set_bucket_quota : String → BucketQuota → Eff W (Result (Unit {0}))
  pub info_canned_policy : String → Eff W (Result PolicyInfo)
  pub add_canned_policy : String → String → Eff W (Result (Unit {0}))
  pub list_policies : String → Eff W (Result (List NamedPolicy))
  pub remove_canned_policy : String → Eff W (Result (Unit {0}))
  pub add_user : String → String → Eff W (Result (Unit {0}))
  pub add_service_account : AddServiceAccountReq → Eff W (Result (Unit {0}))
  pub get_user_info : String → Eff W (Result UserInfo)
  pub remove_user : String → Eff W (Result (Unit {0}))
  pub detach_policy : PolicyAssociationReq → Eff W (Result (Unit {0}))
  pub attach_policy : PolicyAssociationReq → Eff W (Result (Unit {0}))

-- The constructors, which contact no server. `system_cert_pool` is nil where the system has none.
pub record Libraries (W P : Type 0) : Type 0 where
  pub new_client : String → Options P → Result (MinioClient W)
  pub new_admin_client : String → Options P → Result (AdminClient W)
  pub parse_url : String → Result Url
  pub system_cert_pool : Option P
  pub new_cert_pool : P
  pub append_certs_from_pem : P → String → P
