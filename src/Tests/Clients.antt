-- ===== src/Tests/Clients.antt =====
-- Who gets a client, at concrete instances.
use mathlib.Core.Bool.{false≢true}
use s3_operator.Prelude.{◌≡◌, refl, [], ◌∷◌}
use s3_operator.Effect.{err, returned, attempt, ◌>>=◌}
use s3_operator.Text.{has_prefix, has_suffix, has_infix, trim_prefix, trim_suffix, split}
use s3_operator.Cluster.{Reconciler}
use s3_operator.Helpers.Client.{
  get_s3_client_for_ressource, get_s3_client_from_s3_instance, client_if_allowed, client_if_ready,
  get_s3_instance_access_secret, ca_certificates, value_of,
}
use s3_operator.Helpers.InstanceRef.{get_s3_instance_ref_info}
use s3_operator.Helpers.Namespaces.{is_allowed_namespaces, fits_any, fits}
use s3_operator.Helpers.Namespaces.Globs.{MayUse, is_allowed_namespaces_iff}
use s3_operator.Helpers.Client.Refused.{Granted, client_Granted, forbidden-is_not_found}
use s3_operator.Tests.World.{World, not_found, client, instance_with, ready, new_world}
use s3_operator.Tests.Cluster.{cluster, main_config}

client_Granted_example :
    Granted cluster "user-ana" "storage/main" new_world (client main_config) new_world
unfolding get_s3_client_for_ressource get_s3_client_from_s3_instance client_if_allowed
    client_if_ready get_s3_instance_access_secret ca_certificates value_of is_allowed_namespaces
    fits_any fits has_prefix has_suffix has_infix trim_prefix trim_suffix get_s3_instance_ref_info
    split attempt ◌>>=◌
client_Granted_example =
    client_Granted cluster "user-ana" "storage/main" new_world (client main_config) new_world refl

-- The cluster without the instance.
abbrev without_instance : Reconciler World
without_instance = record cluster {
  s3_instances = record cluster.s3_instances { get = λ k w. (returned (err not_found), w) };
}

stranger_barred : ¬ MayUse "team-b" (instance_with (ready ∷ []))
unfolding is_allowed_namespaces fits_any fits has_prefix has_suffix has_infix trim_prefix
    trim_suffix
stranger_barred m =
    false≢true ((is_allowed_namespaces_iff "team-b" (instance_with (ready ∷ []))).1 m)

forbidden-is_not_found_example :
    (get_s3_client_for_ressource cluster "team-b" "storage/main" new_world).0
    ≡ (get_s3_client_for_ressource without_instance "team-b" "storage/main" new_world).0
unfolding get_s3_instance_ref_info split has_infix has_prefix
forbidden-is_not_found_example =
    forbidden-is_not_found cluster without_instance "team-b" "storage/main"
      (instance_with (ready ∷ [])) not_found new_world new_world new_world refl stranger_barred refl
      refl
