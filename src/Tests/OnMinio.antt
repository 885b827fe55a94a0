-- ===== src/Tests/OnMinio.antt =====
-- The operator with its own factory and client, on a MinIO server that is new.
use s3_operator.Prelude.{Bool, true, false, refl, none, some, [], ◌∷◌, pos, arith}
use s3_operator.Effect.Post.{OnOk}
use s3_operator.Effect.{ok, err, pure, attempt, ◌>>=◌}
use s3_operator.Api.{Resource, S3User}
use s3_operator.Cluster.{ResourceClient, SecretClient, Reconciler}
use s3_operator.Composed.{Surroundings, bucket_on_minio-Realizes, user_on_minio-HasUser}
use s3_operator.S3.Minio.Server.{ServerState, backend_of}
use s3_operator.S3.Minio.Clients.{
  construct_endpoint_from_url, endpoint_of, new_minio_s3_client, with_client, with_admin_client,
  generate_minio_client, generate_admin_minio_client, with_certificates,
}
use s3_operator.S3.Factory.Connects.{wired}
use s3_operator.Text.{has_prefix, has_suffix, has_infix, trim_prefix, trim_suffix, split, join}
use s3_operator.Helpers.InstanceRef.{get_s3_instance_ref_info}
use s3_operator.Helpers.Namespaces.{is_allowed_namespaces, fits_any, fits}
use s3_operator.Helpers.Client.{
  get_s3_client_for_ressource, get_s3_client_from_s3_instance, client_if_allowed, client_if_ready,
  get_s3_instance_access_secret, ca_certificates, value_of,
}
use s3_operator.Helpers.Condition
use s3_operator.Helpers.Condition.{report}
use s3_operator.Password.{
  generate, generate_with, new_generator, generate_loop, random_element, random_insert, len,
  char_at, insert_at,
}
use s3_operator.User.Secrets
use s3_operator.User.Secrets.{insert, insert_all, unowned_secret, new_secret_for_cr}
use s3_operator.User.Create
use s3_operator.User.Create.{
  secret_content, add_policies, create_with_secret, create_with_existing, create_after_get,
  create_with_key, handle_create, conflicting_owner,
}
use s3_operator.User.Create.Provides.{HasUser}
use s3_operator.User.Update
use s3_operator.S3.Minio
use s3_operator.S3.Minio.{
  minio_s3_client, bucket_exists, create_bucket, create_path, set_quota, user_exist, user_answer,
  unless_code,
}
use s3_operator.S3.Minio.Quota.{uint64_of}
use s3_operator.S3.Factory.{new_s3_factory, generate_s3_client, client_of_provider, minio_client_of}
use s3_operator.Bucket
use s3_operator.Bucket.Converges.{Realizes}
use s3_operator.Tests.World.{
  answer_of, is_named, data_bucket, data_path, data_policy, ana, instance_with, ready, main_keys,
  settled, run_of, not_found,
}
use s3_operator.Tests.Cluster.{data_bucket-IsTarget, machinery, formatting, find}
use s3_operator.Tests.MinioServer.{MinioWorld, server, strip, sdk, sdk-IsSdk}

-- An API server that keeps nothing, and always finds the one object.
abbrev pub fixed : {Spec : Type 0} → Resource Spec → ResourceClient MinioWorld Spec
fixed object = record {
  get = λ k. pure (ok object);
  update = λ o. pure (o, none);
  update_status = λ o. pure (o, none);
  list = pure (ok (object ∷ []));
}

pub answered :
    {A : Type 0} (P : A → Type 0) (w : MinioWorld) (found : Bool) (a : A)
    → P a
    → OnOk (λ a _. P a) (answer_of found a) w
answered P w true a h = h
answered P w false a h = tt

abbrev pub new_disk : ServerState
new_disk = record {
  has_bucket = λ n. false;
  quota_of = λ n. 0;
  has_object = λ b k. false;
  policy_of = λ n. none;
  secret_key_of = λ n. none;
  user_has = λ n p. false;
}

abbrev pub new_server : MinioWorld
new_server = record { disk = new_disk; readers = λ n. false }

abbrev secret_client : SecretClient MinioWorld
secret_client = record {
  get = λ k. pure (find k (main_keys ∷ []));
  list = λ n. pure (ok (main_keys ∷ []));
  create = λ s. pure (ok tt);
  update = λ s. pure (ok tt);
  delete = λ s. pure (ok tt);
}

abbrev pub reader : S3User
reader = record ana { spec = record ana.spec { policies = some ("readers" ∷ []) } }

abbrev pub around : Reconciler MinioWorld
around = record {
  buckets = fixed data_bucket;
  paths = fixed data_path;
  policies = fixed data_policy;
  s3_users = fixed reader;
  s3_instances = record (fixed (instance_with (ready ∷ []))) {
    get = λ k. pure (answer_of (is_named k (instance_with []).meta) (instance_with (ready ∷ [])));
  };
  secrets = secret_client;
  s3_factory = record { generate_s3_client = λ p g. pure (err not_found) };
  machinery = machinery;
  formatting = formatting;
  rand_int = λ m. pure (ok 0);
  reconcile_period = 60;
  override_existing_secret = false;
  read_existing_secret = false;
}

pub surroundings : Surroundings server strip "minio.example.com" sdk around
unfolding construct_endpoint_from_url endpoint_of
surroundings = record {
  libraries = sdk-IsSdk;
  instances_leave = λ k w. record { at = refl };
  instances_reach = λ k w. record { at = answered _ w (is_named k (instance_with []).meta) _ refl };
  secrets_leave = λ k w. record { at = refl };
}

bucket_on_minio-Realizes_example : Realizes data_bucket.spec (pos 10) (
    backend_of strip
      (server (Bucket.handle_reconciliation (wired sdk around) data_bucket new_server).1))
unfolding Bucket.handle_reconciliation Bucket.with_client Bucket.set_reconciled_condition
    Bucket.handle_creation Bucket.create_quota Bucket.create_paths get_s3_client_for_ressource
    get_s3_client_from_s3_instance client_if_allowed client_if_ready get_s3_instance_access_secret
    ca_certificates value_of is_allowed_namespaces fits_any fits has_prefix has_suffix has_infix
    trim_prefix trim_suffix get_s3_instance_ref_info split report Condition.set_reconciled_condition
    attempt ◌>>=◌ new_s3_factory generate_s3_client client_of_provider minio_client_of
    construct_endpoint_from_url endpoint_of new_minio_s3_client with_client with_admin_client
    generate_minio_client generate_admin_minio_client with_certificates minio_s3_client strip
    bucket_exists create_bucket create_path set_quota uint64_of
bucket_on_minio-Realizes_example =
    bucket_on_minio-Realizes surroundings
      (record { update_status_lem = λ o w. record { at = refl } }) data_bucket (pos 20) new_server _
      settled (omega arith) (omega arith) refl data_bucket-IsTarget
      (run_of (Bucket.handle_reconciliation (wired sdk around) data_bucket new_server) settled refl)
      refl

user_on_minio-HasUser_example : HasUser reader (
    backend_of strip (server (Update.handle_reconciliation (wired sdk around) reader new_server).1))
unfolding Update.handle_reconciliation secret_content insert insert_all unowned_secret
    new_secret_for_cr Create.create_user add_policies create_with_secret create_with_existing
    create_after_get create_with_key handle_create Create.with_client
    Create.set_reconciled_condition Secrets.add_policies_to_user conflicting_owner join generate
    generate_with new_generator generate_loop random_element random_insert len char_at insert_at
    get_s3_client_for_ressource get_s3_client_from_s3_instance client_if_allowed client_if_ready
    get_s3_instance_access_secret ca_certificates value_of is_allowed_namespaces fits_any fits
    has_prefix has_suffix has_infix trim_prefix trim_suffix get_s3_instance_ref_info split report
    Condition.set_reconciled_condition attempt ◌>>=◌ new_s3_factory generate_s3_client
    client_of_provider minio_client_of construct_endpoint_from_url endpoint_of new_minio_s3_client
    with_client with_admin_client generate_minio_client generate_admin_minio_client
    with_certificates minio_s3_client strip Minio.create_user user_exist user_answer
    Minio.add_policies_to_user unless_code
user_on_minio-HasUser_example =
    user_on_minio-HasUser surroundings (record { update_status_lem = λ o w. record { at = refl } })
      (record {
        list_lem = λ n w. record { at = refl };
        create_lem = λ s w. record { at = refl };
        update_lem = λ s w. record { at = refl };
        delete_lem = λ s w. record { at = refl };
      })
      reader new_server _ settled
      (run_of (Update.handle_reconciliation (wired sdk around) reader new_server) settled refl) refl
