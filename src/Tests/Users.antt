-- ===== src/Tests/Users.antt =====
-- Users, at a concrete backend.
use mathlib.Core.Bool.{false≢true}
use s3_operator.Prelude.{true, ◌≡◌, refl, some, [], ◌∷◌, is_some, eq_iff, ◌==◌, if◌then◌else◌}
use s3_operator.Effect.{ok, returned, pure, done, failed, attempt, ◌>>=◌}
use s3_operator.Api.{Secret}
use s3_operator.Text.{has_prefix, has_suffix, has_infix, trim_prefix, trim_suffix, split, join}
use s3_operator.Cluster.{Reconciler}
use s3_operator.Cluster.Laws.{IsConnected}
use s3_operator.Helpers.Client.{
  get_s3_client_for_ressource, get_s3_client_from_s3_instance, client_if_allowed, client_if_ready,
  get_s3_instance_access_secret, ca_certificates, value_of,
}
use s3_operator.Helpers.Condition
use s3_operator.Helpers.Condition.{report}
use s3_operator.Helpers.Condition.Reports.{report-keeps_error}
use s3_operator.Helpers.InstanceRef.{get_s3_instance_ref_info}
use s3_operator.Helpers.Namespaces.{is_allowed_namespaces, fits_any, fits}
use s3_operator.Password.{
  generate, generate_with, new_generator, generate_loop, random_element, random_insert, len,
  char_at, insert_at,
}
use s3_operator.User.Secrets.{
  insert, insert_all, unowned_secret, new_secret_for_cr, add_policies_to_user,
}
use s3_operator.User.Create.{
  secret_content, create_user, add_policies, create_with_secret, create_with_existing,
  create_after_get, create_with_key, handle_create, with_client, set_reconciled_condition,
  conflicting_owner, conflict_error,
}
use s3_operator.User.Create.Provides.{HasUser}
use s3_operator.User.Create.Conflict.{OtherOwner, handle_create-conflict}
use s3_operator.User.Update.{missing_from, change_policies, update_policies, handle_reconciliation}
use s3_operator.User.Update.Synchronizes.{Synchronized, update_policies-Synchronized}
use s3_operator.User.Update.Provides.{handle_reconciliation-HasUser}
use s3_operator.Tests.World.{
  World, seen, client, client-IsLawful, ana, meta_of, new_world, settled, run_of, not_found,
}
use s3_operator.Tests.Cluster.{
  cluster, main_config, cluster-IsConnected, s3_users-IsReporting, secrets-IsStoring,
  machinery-IsOwning, find,
}

handle_reconciliation-HasUser_example :
    HasUser ana (seen (handle_reconciliation cluster ana new_world).1)
unfolding handle_reconciliation secret_content insert insert_all unowned_secret new_secret_for_cr
    create_user add_policies create_with_secret create_with_existing create_after_get
    create_with_key handle_create with_client set_reconciled_condition add_policies_to_user
    conflicting_owner join generate generate_with new_generator generate_loop random_element
    random_insert len char_at insert_at get_s3_client_for_ressource get_s3_client_from_s3_instance
    client_if_allowed client_if_ready get_s3_instance_access_secret ca_certificates value_of
    is_allowed_namespaces fits_any fits has_prefix has_suffix has_infix trim_prefix trim_suffix
    get_s3_instance_ref_info split report Condition.set_reconciled_condition attempt ◌>>=◌
handle_reconciliation-HasUser_example =
    handle_reconciliation-HasUser cluster-IsConnected s3_users-IsReporting secrets-IsStoring ana
      new_world _ settled (run_of (handle_reconciliation cluster ana new_world) settled refl) refl

update_policies-Synchronized_example :
    (let after = seen (update_policies cluster (client main_config) ana (pure done) new_world).1 in
      Synchronized ana after × (after.secret_key_of ≡ (seen new_world).secret_key_of))
unfolding update_policies change_policies missing_from ◌>>=◌ attempt
update_policies-Synchronized_example =
    update_policies-Synchronized cluster ana (client main_config) new_world _ done
      (client-IsLawful main_config)
      (run_of (update_policies cluster (client main_config) ana (pure done) new_world) done refl)
      refl

-- The secret that Ana's user would have belongs to Bob's.
abbrev secret_of_bob : Secret
secret_of_bob = record {
  meta = record (meta_of "user-ana" "ana") {
    owner_references = record { kind = "S3User"; name = "bob"; uid = "bob-uid" } ∷ [];
  };
  content = [];
  type = "Opaque";
}

abbrev cluster_of_bob : Reconciler World
cluster_of_bob = record cluster {
  secrets = record cluster.secrets {
    get = λ k w. (returned (if k.name == "ana" then ok secret_of_bob else find k w.secrets), w);
  };
}

cluster_of_bob-IsConnected : IsConnected seen cluster_of_bob
cluster_of_bob-IsConnected = record {
  get_instance_lem = λ k w. record { at = refl };
  get_secret_lem = λ k w. record { at = refl };
  serves = cluster-IsConnected.serves;
  instance_serves_lem = cluster-IsConnected.instance_serves_lem;
  generate_lem = cluster-IsConnected.generate_lem;
  generate_leaves_lem = cluster-IsConnected.generate_leaves_lem;
}

handle_create-conflict_example :
    (is_some (failed conflict_error).error ≡ true)
    × (seen (handle_create cluster_of_bob ana new_world).1 ≡ seen new_world)
unfolding secret_content insert insert_all unowned_secret new_secret_for_cr create_user add_policies
    create_with_secret create_with_existing create_after_get create_with_key handle_create
    with_client set_reconciled_condition add_policies_to_user conflicting_owner join generate
    generate_with new_generator generate_loop random_element random_insert len char_at insert_at
    get_s3_client_for_ressource get_s3_client_from_s3_instance client_if_allowed client_if_ready
    get_s3_instance_access_secret ca_certificates value_of is_allowed_namespaces fits_any fits
    has_prefix has_suffix has_infix trim_prefix trim_suffix get_s3_instance_ref_info split report
    Condition.set_reconciled_condition attempt ◌>>=◌
handle_create-conflict_example =
    handle_create-conflict cluster_of_bob-IsConnected s3_users-IsReporting machinery-IsOwning
      (λ m w. record { at = refl }) ana
      (λ w. record {
        at = OtherOwner.here refl (λ e. false≢true ((eq_iff "bob-uid" "ana-uid").1 e));
      })
      new_world _ (record settled { error = some conflict_error })
      (run_of (handle_create cluster_of_bob ana new_world)
        (record settled { error = some conflict_error }) refl)

report-keeps_error_example : is_some (record settled { error = some not_found }).error ≡ true
unfolding report Condition.set_reconciled_condition attempt ◌>>=◌
report-keeps_error_example =
    report-keeps_error cluster cluster.s3_users ana "Unreachable" "failed" not_found new_world _
      (record settled { error = some not_found })
      (run_of
        (report cluster cluster.s3_users ana "Unreachable" "failed" (some not_found) new_world)
        (record settled { error = some not_found }) refl)
