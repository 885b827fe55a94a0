-- ===== src/S3/Mocked.antt =====
-- internal/s3/client/impl/mockedS3Client.go: a client that contacts no server and answers every
-- call in the same way.
use s3_operator.Prelude.{true, false, none, [], pos}
use s3_operator.Effect.{Result, ok, Eff, pure}
use s3_operator.S3.{S3Config, S3Client}

-- `MockedS3Client`
pub record MockedS3Client : Type 0 where
  pub s3_config : S3Config

-- `NewMockedS3Client`
unfoldable pub new_mocked_s3_client : S3Config → MockedS3Client
new_mocked_s3_client g = record { s3_config = g }

module _ {W : Type 0} where
  -- Of the calls that return an error alone.
  abbrev pub no_error : Eff W (Result (Unit {0}))
  no_error = pure (ok tt)

  -- A `*MockedS3Client` as an S3Client.
  unfoldable pub mocked_s3_client : MockedS3Client → S3Client W
  mocked_s3_client m = record {
    bucket_exists = λ name. pure (ok false);
    create_bucket = λ name. no_error;
    delete_bucket = λ name. no_error;
    create_path = λ bucketname path. no_error;
    path_exists = λ bucketname path. pure (true, none);
    delete_path = λ bucketname path. no_error;
    get_quota = λ name. pure (ok (pos 1));
    set_quota = λ name quota. no_error;
    policy_exist = λ name. pure (ok true);
    delete_policy = λ name. no_error;
    get_policy_info = λ name. pure (ok none);
    create_or_update_policy = λ name content. no_error;
    user_exist = λ name. pure (ok true);
    check_user_credentials_valid = λ name access_key secret_key. pure (ok true);
    add_service_account_for_user = λ name access_key secret_key. no_error;
    create_user = λ name password. no_error;
    delete_user = λ name. no_error;
    get_user_policies = λ name. pure (ok []);
    add_policies_to_user = λ username policies. no_error;
    remove_policies_from_user = λ username policies. no_error;
    get_config = m.s3_config;
    list_buckets = pure (ok []);
  }
