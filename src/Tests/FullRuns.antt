-- ===== src/Tests/FullRuns.antt =====
-- Runs that bring a user and a bucket about, by the operator with its own factory on a MinIO
-- server.
use s3_operator.Prelude.{String, Bool, true, false, ◌≡◌, ◌==◌, List, refl, none, [], ◌∷◌}
use s3_operator.Effect.{attempt, ◌>>=◌}
use s3_operator.S3.Minio.Clients.{
  construct_endpoint_from_url, endpoint_of, new_minio_s3_client, with_client, with_admin_client,
  generate_minio_client, generate_admin_minio_client, with_certificates,
}
use s3_operator.Text.{has_prefix, has_suffix, has_infix, trim_prefix, trim_suffix, split, join}
use s3_operator.Helpers.InstanceRef.{get_s3_instance_ref_info}
use s3_operator.Helpers.Namespaces.{is_allowed_namespaces, fits_any, fits}
use s3_operator.Helpers.Client.{
  get_s3_client_for_ressource, get_s3_client_from_s3_instance, client_if_allowed, client_if_ready,
  get_s3_instance_access_secret, ca_certificates, value_of,
}
use s3_operator.Helpers.Condition
use s3_operator.Helpers.Condition.{report}
use s3_operator.Password.{
  generate, generate_with, new_generator, generate_loop, random_element, random_insert, len,
  char_at, insert_at,
}
use s3_operator.User.Secrets
use s3_operator.User.Secrets.{insert, insert_all, unowned_secret, new_secret_for_cr}
use s3_operator.User.Create
use s3_operator.User.Create.{
  secret_content, add_policies, create_with_secret, create_with_existing, create_after_get,
  create_with_key, handle_create, conflicting_owner,
}
use s3_operator.User.Create.Provides.{HasUser}
use s3_operator.User.Update
use s3_operator.S3.Minio
use s3_operator.S3.Minio.{
  minio_s3_client, bucket_exists, create_bucket, create_path, set_quota, user_exist, user_answer,
  unless_code,
}
use s3_operator.S3.Factory.{new_s3_factory, generate_s3_client, client_of_provider, minio_client_of}
use s3_operator.Bucket
use s3_operator.Tests.World.{instance_with, ready, settled, run_of}
use s3_operator.Tests.MinioServer.{found_if, strip}
use s3_operator.Prelude.{sym, subst, ap, ◌∙◌}
use mathlib.Core.Bool.{false≢true}
use s3_operator.Effect.Settles.{Yields}
use s3_operator.Effect.Returns.{Returns}
use s3_operator.Helpers.Client.{config_of}
use s3_operator.Helpers.Client.Gives.{Permitted}
use s3_operator.Helpers.Client.Reached.{Reachable}
use s3_operator.S3.Responds.{IsResponsive}
use s3_operator.S3.Backend.{UserRemoved}
use s3_operator.Lifecycle
use s3_operator.Lifecycle.Concludes.{Concludes}
use s3_operator.Lifecycle.Handles.{HandledBy}
use s3_operator.User.Finalizer
use s3_operator.User.Finalizer.Reconciles.{reconcile_user-Concludes}
use s3_operator.Tests.Lifecycles.{
  operator, view, connected, user_deletion, users-IsReading, users-IsUpdating, users-IsReporting,
  users-IsStoring, request,
}
use s3_operator.Tests.OnMinio.{new_server}
use s3_operator.Api.{Secret}

reconcile_user-Concludes_example :
    Concludes operator.s3_users
      (request "ana")
      (HandledBy operator "s3.onyxia.sh/userFinalizer"
        (λ user. Permitted true (UserRemoved user.spec.access_key))
        (λ user s t. HasUser user t))
      view
      new_server
      settled
      (Finalizer.reconcile operator (request "ana") new_server).1
unfolding Finalizer.reconcile Lifecycle.reconcile Lifecycle.ensure_status Lifecycle.ensure_finalizer
    Lifecycle.dispatch Lifecycle.after_update Lifecycle.re_fetch Update.handle_reconciliation
    secret_content insert insert_all unowned_secret new_secret_for_cr Create.create_user
    add_policies create_with_secret create_with_existing create_after_get create_with_key
    handle_create Create.with_client Create.set_reconciled_condition Secrets.add_policies_to_user
    conflicting_owner join generate generate_with new_generator generate_loop random_element
    random_insert len char_at insert_at get_s3_client_for_ressource get_s3_client_from_s3_instance
    client_if_allowed client_if_ready get_s3_instance_access_secret ca_certificates value_of
    is_allowed_namespaces fits_any fits has_prefix has_suffix has_infix trim_prefix trim_suffix
    get_s3_instance_ref_info split report Condition.set_reconciled_condition attempt ◌>>=◌
    new_s3_factory generate_s3_client client_of_provider minio_client_of construct_endpoint_from_url
    endpoint_of new_minio_s3_client with_client with_admin_client generate_minio_client
    generate_admin_minio_client with_certificates minio_s3_client strip Minio.create_user user_exist
    user_answer Minio.add_policies_to_user unless_code
reconcile_user-Concludes_example =
    reconcile_user-Concludes connected users-IsReading users-IsUpdating users-IsReporting
      users-IsStoring true user_deletion (request "ana") new_server _ settled
      (run_of (Finalizer.reconcile operator (request "ana") new_server) settled refl) refl

pub found_if-none : (b : Bool) → (Minio.stat_answer (found_if b)).1 ≡ none
unfolding Minio.stat_answer
found_if-none true = refl
found_if-none false = refl

pub main_instance-Yields :
    (secret : Secret) (certificates : List String)
    → Yields IsResponsive (
        operator.s3_factory.generate_s3_client "minio"
          (config_of (instance_with (ready ∷ [])) secret certificates))
unfolding new_s3_factory generate_s3_client client_of_provider minio_client_of
    construct_endpoint_from_url endpoint_of new_minio_s3_client with_client with_admin_client
    generate_minio_client generate_admin_minio_client with_certificates minio_s3_client attempt
    ◌>>=◌ Minio.bucket_exists Minio.create_bucket Minio.create_path Minio.path_exists
    Minio.get_quota Minio.set_quota
main_instance-Yields secret certificates w = record {
  at = record {
    bucket_exists_lem = λ n v. record { at = tt };
    create_bucket_lem = λ n v. record { at = tt };
    create_path_lem = λ n p v. record { at = tt };
    path_exists_lem = λ n p v. record { at = found_if-none _ };
    get_quota_lem = λ n v. record { at = tt };
    set_quota_lem = λ n q v. record { at = tt };
  };
}

pub reachable :
    Reachable operator "user-ana" "storage/main" (λ i. i ≡ instance_with (ready ∷ [])) IsResponsive
unfolding is_allowed_namespaces fits_any fits has_prefix has_suffix has_infix trim_prefix
    trim_suffix get_s3_instance_ref_info split
reachable = record {
  instance_lem = λ w. record { at = ((refl, refl), refl) };
  secrets_lem = λ i e.
      subst
        (λ i.
          Yields (λ _. Unit)
            (operator.secrets.get (record { namespace = i.namespace; name = i.spec.secret_ref })))
        (sym e) (λ w. record { at = tt });
  certificates_lem = λ i e referred.
      absurd (false≢true (sym (ap (λ i. i.spec.ca_cert_secret_ref == "") (sym e) ∙ referred)));
  factory_lem = λ i secret certificates e.
      subst
        (λ i. Yields IsResponsive (
          operator.s3_factory.generate_s3_client i.spec.s3_provider
            (config_of i secret certificates)))
        (sym e) (main_instance-Yields secret certificates);
}
