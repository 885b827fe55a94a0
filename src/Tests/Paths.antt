-- ===== src/Tests/Paths.antt =====
-- Paths and policies, at a concrete backend.
use s3_operator.Prelude.{refl, [], ◌∷◌, All}
use s3_operator.Effect.{attempt, ◌>>=◌}
use s3_operator.Text.{has_prefix, has_suffix, has_infix, trim_prefix, trim_suffix, split}
use s3_operator.Helpers.Client.{
  get_s3_client_for_ressource, get_s3_client_from_s3_instance, client_if_allowed, client_if_ready,
  get_s3_instance_access_secret, ca_certificates, value_of,
}
use s3_operator.Helpers.Condition
use s3_operator.Helpers.Condition.{report}
use s3_operator.Helpers.InstanceRef.{get_s3_instance_ref_info}
use s3_operator.Helpers.Namespaces.{is_allowed_namespaces, fits_any, fits}
use s3_operator.S3.Backend.{add_bucket}
use s3_operator.PathLoop.{ensure_paths}
use s3_operator.PathCr
use s3_operator.PathCr.Creates.{Provides, handle_reconciliation-Provides}
use s3_operator.PathCr.Deletes.{Shrinks, Gone, delete_paths-Gone}
use s3_operator.Policy
use s3_operator.Policy.Converges.{Implements, handle_reconciliation-Implements}
use s3_operator.Tests.World.{
  World, seen, add_path, client, client-IsLawful, data_path, data_policy, instance_with, ready,
  empty_backend, world_with, new_world, settled, run_of,
}
use s3_operator.Tests.Cluster.{
  cluster, main_config, cluster-IsConnected, paths-IsReporting, policies-IsReporting,
}

-- The bucket is there.
abbrev bucket_world : World
bucket_world = world_with (add_bucket "data" empty_backend) (instance_with (ready ∷ []))

handle_reconciliation-Provides_example :
    Provides data_path.spec
      (seen bucket_world)
      (seen (PathCr.handle_reconciliation cluster data_path bucket_world).1)
unfolding PathCr.handle_reconciliation PathCr.create_in_bucket PathCr.set_reconciled_condition
    ensure_paths get_s3_client_for_ressource get_s3_client_from_s3_instance client_if_allowed
    client_if_ready get_s3_instance_access_secret ca_certificates value_of is_allowed_namespaces
    fits_any fits has_prefix has_suffix has_infix trim_prefix trim_suffix get_s3_instance_ref_info
    split report Condition.set_reconciled_condition attempt ◌>>=◌
handle_reconciliation-Provides_example =
    handle_reconciliation-Provides cluster-IsConnected paths-IsReporting data_path bucket_world _
      settled (run_of (PathCr.handle_reconciliation cluster data_path bucket_world) settled refl)
      refl

-- The bucket has two paths, of which one is listed.
abbrev paths_world : World
paths_world =
    world_with (add_path "data" "results" (add_path "data" "raw" (add_bucket "data" empty_backend)))
      (instance_with (ready ∷ []))

delete_paths-Gone_example :
    (let after =
        seen
          (PathCr.delete_paths cluster
            (client main_config)
            "data"
            []
            ("results" ∷ [])
            paths_world).1 in
      Shrinks "data" (seen paths_world) after × All (Gone "data" after) ("results" ∷ []))
unfolding PathCr.delete_paths PathCr.delete_if_found ◌>>=◌
delete_paths-Gone_example =
    delete_paths-Gone cluster (client main_config) (client-IsLawful main_config) "data"
      (λ p w. record { at = refl }) ("results" ∷ []) paths_world _
      (run_of
        (PathCr.delete_paths cluster (client main_config) "data" [] ("results" ∷ []) paths_world) []
        refl)

handle_reconciliation-Implements_example :
    Implements cluster.formatting data_policy.spec
      (seen (Policy.handle_reconciliation cluster data_policy new_world).1)
unfolding Policy.handle_reconciliation Policy.with_client Policy.handle_creation
    Policy.set_reconciled_condition get_s3_client_for_ressource get_s3_client_from_s3_instance
    client_if_allowed client_if_ready get_s3_instance_access_secret ca_certificates value_of
    is_allowed_namespaces fits_any fits has_prefix has_suffix has_infix trim_prefix trim_suffix
    get_s3_instance_ref_info split report Condition.set_reconciled_condition attempt ◌>>=◌
handle_reconciliation-Implements_example =
    handle_reconciliation-Implements cluster-IsConnected policies-IsReporting data_policy new_world
      _ settled (run_of (Policy.handle_reconciliation cluster data_policy new_world) settled refl)
      refl
