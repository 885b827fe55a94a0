-- ===== src/S3/Minio.antt =====
-- internal/s3/client/impl/minioS3Client.go: the client of a MinIO server.
pub mod Sdk
pub mod Clients
pub mod Quota
pub mod Server
pub mod UserPolicies
pub mod Writes
pub mod Answers
pub mod Implements
use s3_operator.Prelude.{
  String, ◌++◌, Bool, true, false, ◌&&◌, not, ◌==◌, ◌=ℕ◌, Option, none, some, List, [], ◌∷◌, length,
  is_empty, contains, ℤ, if◌then◌else◌,
}
use s3_operator.Effect.{Error, Result, ok, err, Eff, pure, ◌>>=◌, attempt}
use s3_operator.Text.{trim_space, split}
use s3_operator.S3.{S3Client, S3Config, PolicyInfo}
use s3_operator.S3.Minio.Sdk.{
  BucketInfo, NamedPolicy, hard_quota, AddServiceAccountReq, PolicyAssociationReq, Libraries,
}
use s3_operator.S3.Minio.Clients.{MinioS3Client, generate_minio_client}
use s3_operator.S3.Minio.Quota.{uint64_of, int64_of}

-- The loop of `ListBuckets`
unfoldable pub bucket_names : List BucketInfo → List String
bucket_names [] = []
bucket_names (info ∷ rest) = info.name ∷ bucket_names rest

-- The answer of `PathExists`: the status 404 is that the path does not exist.
unfoldable pub stat_answer : Result (Unit {0}) → Bool × Option Error
stat_answer (ok _) = (true, none)
stat_answer (err e) = if e.status_code =ℕ 404 then (false, none) else (false, some e)

-- The answer of `GetPolicyInfo`: nil without an error if there is no such policy.
unfoldable pub policy_answer : Result PolicyInfo → Result (Option PolicyInfo)
policy_answer (ok policy) = ok (some policy)
policy_answer (err e) = if e.code == "XMinioAdminNoSuchPolicy" then ok none else err e

-- The loop of `PolicyExist`
unfoldable pub filtered_policies : String → List NamedPolicy → List String
filtered_policies name [] = []
filtered_policies name (p ∷ ps) =
    let rest = filtered_policies name ps in if p.name == name then name ∷ rest else rest

-- The answer of `UserExist`
unfoldable pub user_answer : {A : Type 0} → Result A → Result Bool
user_answer (ok _) = ok true
user_answer (err e) = if e.code == "XMinioAdminNoSuchUser" then ok false else err e

-- An error with the code is none: the server is as it was asked to be already.
unfoldable pub unless_code : String → Result (Unit {0}) → Result (Unit {0})
unless_code code (ok _) = ok tt
unless_code code (err e) = if e.code == code then ok tt else err e

-- The policies in the text of a user's info.
unfoldable pub user_policies_of : String → List String
user_policies_of policy_name =
    let user_policies = split (trim_space policy_name) b',' in
    if length user_policies =ℕ 1 && contains user_policies "" then [] else user_policies

-- The answer of `CheckUserCredentialsValid`: an unknown key or a wrong secret is no error.
unfoldable pub credentials_answer : Result (List BucketInfo) → Result Bool
credentials_answer (ok _) = ok true
credentials_answer (err e) =
    if e.code == "SignatureDoesNotMatch"
    then ok false
    else if e.code == "InvalidAccessKeyId"
    then ok false
    else err e

module _ {W P : Type 0} (sdk : Libraries W P) (m : MinioS3Client W) where
  unfoldable pub bucket_exists : String → Eff W (Result Bool)
  bucket_exists name = m.client.bucket_exists name

  unfoldable pub create_bucket : String → Eff W (Result (Unit {0}))
  create_bucket name = m.client.make_bucket name m.s3_config.region

  unfoldable pub list_buckets : Eff W (Result (List String))
  list_buckets =
      attempt m.client.list_buckets (λ e. pure (err e)) λ infos. pure (ok (bucket_names infos))

  unfoldable pub delete_bucket : String → Eff W (Result (Unit {0}))
  delete_bucket name = m.client.remove_bucket name

  unfoldable pub create_path : String → String → Eff W (Result (Unit {0}))
  create_path bucketname path =
      attempt (m.client.put_object bucketname ("/" ++ (path ++ ("/" ++ ".keep"))) "")
        (λ e. pure (err e)) λ _. pure (ok tt)

  unfoldable pub path_exists : String → String → Eff W (Bool × Option Error)
  path_exists bucketname path =
      m.client.stat_object bucketname (path ++ ("/" ++ ".keep")) >>= λ answer.
      pure (stat_answer answer)

  unfoldable pub delete_path : String → String → Eff W (Result (Unit {0}))
  delete_path bucketname path =
      attempt (m.client.remove_object bucketname ("/" ++ (path ++ "/.keep"))) (λ e. pure (err e))
        λ _. pure (ok tt)

  unfoldable pub get_quota : String → Eff W (Result ℤ)
  get_quota name =
      attempt (m.admin_client.get_bucket_quota name) (λ e. pure (err e))
        λ bucket_quota. pure (ok (int64_of bucket_quota.size))

  unfoldable pub set_quota : String → ℤ → Eff W (Result (Unit {0}))
  set_quota name quota =
      m.admin_client.set_bucket_quota name (record { size = uint64_of quota; type = hard_quota })

  unfoldable pub get_policy_info : String → Eff W (Result (Option PolicyInfo))
  get_policy_info name =
      m.admin_client.info_canned_policy name >>= λ answer. pure (policy_answer answer)

  unfoldable pub create_or_update_policy : String → String → Eff W (Result (Unit {0}))
  create_or_update_policy name content = m.admin_client.add_canned_policy name content

  unfoldable pub policy_exist : String → Eff W (Result Bool)
  policy_exist name =
      attempt (m.admin_client.list_policies name) (λ e. pure (err e))
        λ policies. pure (ok (not (is_empty (filtered_policies name policies))))

  unfoldable pub delete_policy : String → Eff W (Result (Unit {0}))
  delete_policy name = m.admin_client.remove_canned_policy name

  unfoldable pub create_user : String → String → Eff W (Result (Unit {0}))
  create_user access_key secret_key =
      attempt (m.admin_client.add_user access_key secret_key) (λ e. pure (err e)) λ _. pure (ok tt)

  unfoldable pub add_service_account_for_user : String → String → String → Eff W (Result (Unit {0}))
  add_service_account_for_user name access_key secret_key =
      let opts : AddServiceAccountReq = record {
        access_key = access_key;
        secret_key = secret_key;
        name = access_key;
        description = "";
        target_user = name;
      } in
      attempt (m.admin_client.add_service_account opts) (λ e. pure (err e)) λ _. pure (ok tt)

  unfoldable pub user_exist : String → Eff W (Result Bool)
  user_exist access_key =
      m.admin_client.get_user_info access_key >>= λ answer. pure (user_answer answer)

  unfoldable pub delete_user : String → Eff W (Result (Unit {0}))
  delete_user access_key = m.admin_client.remove_user access_key >>= λ answer.
      pure (unless_code "XMinioAdminNoSuchUser" answer)

  unfoldable pub get_user_policies : String → Eff W (Result (List String))
  get_user_policies access_key =
      attempt (m.admin_client.get_user_info access_key) (λ e. pure (err e))
        λ user_info. pure (ok (user_policies_of user_info.policy_name))

  -- The name is only logged.
  unfoldable pub check_user_credentials_valid : String → String → String → Eff W (Result Bool)
  check_user_credentials_valid name access_key secret_key =
      let g = m.s3_config in
      attempt
        (pure (
          generate_minio_client sdk g.endpoint g.secure access_key secret_key g.region
            g.ca_certificates_base64))
        (λ e. pure (err e))
        λ minio_test_client.
          minio_test_client.list_buckets >>= λ answer. pure (credentials_answer answer)

  unfoldable pub remove_policies_from_user : String → List String → Eff W (Result (Unit {0}))
  remove_policies_from_user access_key policies =
      m.admin_client.detach_policy (record { policies = policies; user = access_key }) >>= λ answer.
      pure (unless_code "XMinioAdminPolicyChangeAlreadyApplied" answer)

  unfoldable pub add_policies_to_user : String → List String → Eff W (Result (Unit {0}))
  add_policies_to_user access_key policies =
      m.admin_client.attach_policy (record { policies = policies; user = access_key }) >>= λ answer.
      pure (unless_code "XMinioAdminPolicyChangeAlreadyApplied" answer)

  abbrev pub get_config : S3Config
  get_config = m.s3_config

  -- A `*MinioS3Client` as an S3Client.
  unfoldable pub minio_s3_client : S3Client W
  minio_s3_client = record {
    bucket_exists = bucket_exists;
    create_bucket = create_bucket;
    delete_bucket = delete_bucket;
    create_path = create_path;
    path_exists = path_exists;
    delete_path = delete_path;
    get_quota = get_quota;
    set_quota = set_quota;
    policy_exist = policy_exist;
    delete_policy = delete_policy;
    get_policy_info = get_policy_info;
    create_or_update_policy = create_or_update_policy;
    user_exist = user_exist;
    check_user_credentials_valid = check_user_credentials_valid;
    add_service_account_for_user = add_service_account_for_user;
    create_user = create_user;
    delete_user = delete_user;
    get_user_policies = get_user_policies;
    add_policies_to_user = add_policies_to_user;
    remove_policies_from_user = remove_policies_from_user;
    get_config = get_config;
    list_buckets = list_buckets;
  }
