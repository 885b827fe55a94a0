-- ===== src/Tests/Lifecycles.antt =====
-- Deletions and whole reconciliations, by the operator with its own factory on a MinIO server.
use s3_operator.Prelude.{
  String, true, false, ◌==◌, refl, ap, subst, none, some, [], ◌∷◌, pos, arith, if◌then◌else◌,
}
use s3_operator.Effect.{attempt, ◌>>=◌, ok_injective, returned_injective}
use s3_operator.Api.{NamespacedName, Bucket, S3User}
use s3_operator.Cluster.{Reconciler}
use s3_operator.Cluster.Laws.{IsConnected, IsReading, IsReporting, IsUpdating, IsStoring}
use s3_operator.Composed.{operator-IsConnected, operator-Permits}
use s3_operator.S3.Backend.{Backend, BucketRemoved}
use s3_operator.S3.Minio.Server.{backend_of}
use s3_operator.S3.Factory.Connects.{wired}
use s3_operator.Helpers.Client.Gives.{Permits}
use s3_operator.Bucket
use s3_operator.Text.{has_prefix, has_suffix, has_infix, trim_prefix, trim_suffix, split}
use s3_operator.Helpers.InstanceRef.{get_s3_instance_ref_info}
use s3_operator.Helpers.Namespaces.{is_allowed_namespaces, fits_any, fits}
use s3_operator.Helpers.Client.{
  get_s3_client_for_ressource, get_s3_client_from_s3_instance, client_if_allowed, client_if_ready,
  get_s3_instance_access_secret, ca_certificates, value_of,
}
use s3_operator.Helpers.Client.Gives.{Permitted}
use s3_operator.Helpers.Condition
use s3_operator.Helpers.Condition.{report}
use s3_operator.Lifecycle
use s3_operator.Lifecycle.Concludes.{Served, Concludes}
use s3_operator.Lifecycle.Handles.{HandledBy}
use s3_operator.Bucket.Reconciles.{Converts, Reached, reconcile-Concludes}
use s3_operator.Policy
use s3_operator.Policy.Converges.{Implements}
use s3_operator.Policy.Deletes.{PolicyRemoved}
use s3_operator.Policy.Reconciles.{reconcile_policy-Concludes}
use s3_operator.User.Finalizer
use s3_operator.S3.Minio
use s3_operator.S3.Minio.{minio_s3_client}
use s3_operator.S3.Minio.Clients.{
  construct_endpoint_from_url, endpoint_of, new_minio_s3_client, with_client, with_admin_client,
  generate_minio_client, generate_admin_minio_client, with_certificates,
}
use s3_operator.S3.Factory.{new_s3_factory, generate_s3_client, client_of_provider, minio_client_of}
use s3_operator.Tests.Cluster.{data_bucket-IsTarget}
use s3_operator.Tests.World.{compacted, data_bucket, instance_with, is_named, settled, run_of}
use s3_operator.Tests.MinioServer.{MinioWorld, server, strip, sdk}
use s3_operator.Tests.OnMinio.{answered, reader, around, surroundings, new_disk, new_server}

abbrev pub operator : Reconciler MinioWorld
operator = wired sdk around

abbrev pub view : MinioWorld → Backend
view w = backend_of strip (server w)

-- A server with the bucket, the policy and the user of the objects.
abbrev pub old_server : MinioWorld
old_server = record {
  disk = record new_disk {
    has_bucket = λ n. n == "data";
    policy_of = λ n. if n == "readers" then some (compacted "{}") else none;
    secret_key_of = λ n. if n == "ana" then some "key" else none;
  };
  readers = λ n. false;
}

pub connected : IsConnected view operator
connected = operator-IsConnected surroundings

buckets-IsReading : IsReading view operator.buckets
buckets-IsReading = record { get_lem = λ k w. record { at = refl } }

buckets-IsUpdating : IsUpdating view operator.buckets
buckets-IsUpdating = record { update_lem = λ o w. record { at = refl } }

pub buckets-IsReporting : IsReporting view operator.buckets
buckets-IsReporting = record { update_status_lem = λ o w. record { at = refl } }

policies-IsReading : IsReading view operator.policies
policies-IsReading = record { get_lem = λ k w. record { at = refl } }

policies-IsUpdating : IsUpdating view operator.policies
policies-IsUpdating = record { update_lem = λ o w. record { at = refl } }

policies-IsReporting : IsReporting view operator.policies
policies-IsReporting = record { update_status_lem = λ o w. record { at = refl } }

pub users-IsReading : IsReading view operator.s3_users
users-IsReading = record { get_lem = λ k w. record { at = refl } }

pub users-IsUpdating : IsUpdating view operator.s3_users
users-IsUpdating = record { update_lem = λ o w. record { at = refl } }

pub users-IsReporting : IsReporting view operator.s3_users
users-IsReporting = record { update_status_lem = λ o w. record { at = refl } }

bucket_deletion : Permits (λ g. g.bucket_deletion_enabled) true operator
bucket_deletion =
    operator-Permits surroundings (λ g. g.bucket_deletion_enabled) true (λ e g. refl)
      (λ k w. record {
        at = answered _ w (is_named k (instance_with []).meta) _ (λ secret certificates. refl);
      })

policy_deletion : Permits (λ g. g.policy_deletion_enabled) true operator
policy_deletion =
    operator-Permits surroundings (λ g. g.policy_deletion_enabled) true (λ e g. refl)
      (λ k w. record {
        at = answered _ w (is_named k (instance_with []).meta) _ (λ secret certificates. refl);
      })

pub user_deletion : Permits (λ g. g.s3_user_deletion_enabled) true operator
user_deletion =
    operator-Permits surroundings (λ g. g.s3_user_deletion_enabled) true (λ e g. refl)
      (λ k w. record {
        at = answered _ w (is_named k (instance_with []).meta) _ (λ secret certificates. refl);
      })

-- A reader that has the finalizer of users.
abbrev kept_reader : S3User
kept_reader = record reader {
  meta = record reader.meta { finalizers = "s3.onyxia.sh/userFinalizer" ∷ [] };
}

pub users-IsStoring : IsStoring view operator.secrets
users-IsStoring = record {
  list_lem = λ n w. record { at = refl };
  create_lem = λ s w. record { at = refl };
  update_lem = λ s w. record { at = refl };
  delete_lem = λ s w. record { at = refl };
}

abbrev pub request : String → NamespacedName
request name = record { namespace = "user-ana"; name = name }

data_bucket-Converts : Converts data_bucket
data_bucket-Converts = record {
  default_fits = omega arith;
  default_converts = refl;
  target = pos 20;
  target_fits = omega arith;
  target_is = data_bucket-IsTarget;
}

-- The API server serves the one bucket.
converts : (b : Bucket) → Served operator.buckets (request "data") b → Converts b
converts b (u, v, run) =
    subst Converts (ok_injective (returned_injective (ap (λ x. x.0) run))) data_bucket-Converts

reconcile-Concludes_example :
    Concludes operator.buckets
      (request "data")
      (HandledBy operator "s3.onyxia.sh/finalizer"
        (λ b. Permitted true (BucketRemoved b.spec.name))
        Reached)
      view
      new_server
      settled
      (Bucket.reconcile operator (request "data") new_server).1
unfolding Bucket.reconcile Bucket.handle_reconciliation Bucket.with_client
    Bucket.set_reconciled_condition Bucket.handle_creation Bucket.create_quota Bucket.create_paths
    Minio.bucket_exists Minio.create_bucket Minio.create_path Minio.set_quota
    get_s3_client_for_ressource get_s3_client_from_s3_instance client_if_allowed client_if_ready
    get_s3_instance_access_secret ca_certificates value_of is_allowed_namespaces fits_any fits
    has_prefix has_suffix has_infix trim_prefix trim_suffix get_s3_instance_ref_info split attempt
    ◌>>=◌ new_s3_factory generate_s3_client client_of_provider minio_client_of
    construct_endpoint_from_url endpoint_of new_minio_s3_client with_client with_admin_client
    generate_minio_client generate_admin_minio_client with_certificates minio_s3_client report
    Condition.set_reconciled_condition Lifecycle.reconcile Lifecycle.ensure_status
    Lifecycle.ensure_finalizer Lifecycle.dispatch Lifecycle.after_update Lifecycle.re_fetch
reconcile-Concludes_example =
    reconcile-Concludes connected buckets-IsReading buckets-IsUpdating buckets-IsReporting true
      bucket_deletion (request "data") new_server _ settled converts
      (run_of (Bucket.reconcile operator (request "data") new_server) settled refl) refl

reconcile_policy-Concludes_example :
    Concludes operator.policies
      (request "readers")
      (HandledBy operator "s3.onyxia.sh/finalizer"
        (λ p. Permitted true (PolicyRemoved p.spec.name))
        (λ p s t. Implements operator.formatting p.spec t))
      view
      new_server
      settled
      (Policy.reconcile operator (request "readers") new_server).1
unfolding Policy.reconcile Policy.handle_reconciliation Policy.with_client
    Policy.set_reconciled_condition Policy.handle_creation Minio.get_policy_info Minio.policy_answer
    Minio.create_or_update_policy get_s3_client_for_ressource get_s3_client_from_s3_instance
    client_if_allowed client_if_ready get_s3_instance_access_secret ca_certificates value_of
    is_allowed_namespaces fits_any fits has_prefix has_suffix has_infix trim_prefix trim_suffix
    get_s3_instance_ref_info split attempt ◌>>=◌ new_s3_factory generate_s3_client
    client_of_provider minio_client_of construct_endpoint_from_url endpoint_of new_minio_s3_client
    with_client with_admin_client generate_minio_client generate_admin_minio_client
    with_certificates minio_s3_client report Condition.set_reconciled_condition Lifecycle.reconcile
    Lifecycle.ensure_status Lifecycle.ensure_finalizer Lifecycle.dispatch Lifecycle.after_update
    Lifecycle.re_fetch
reconcile_policy-Concludes_example =
    reconcile_policy-Concludes connected policies-IsReading policies-IsUpdating policies-IsReporting
      true policy_deletion (request "readers") new_server _ settled
      (run_of (Policy.reconcile operator (request "readers") new_server) settled refl) refl
