-- ===== src/Tests/Stays.antt =====
-- Three reconciliations of a new bucket in a row.
use s3_operator.Prelude.{◌≡◌, refl, pos, arith}
use s3_operator.Effect.{attempt, ◌>>=◌}
use s3_operator.Text.{has_prefix, has_suffix, has_infix, trim_prefix, trim_suffix, split}
use s3_operator.Helpers.Client.{
  get_s3_client_for_ressource, get_s3_client_from_s3_instance, client_if_allowed, client_if_ready,
  get_s3_instance_access_secret, ca_certificates, value_of,
}
use s3_operator.Helpers.Condition
use s3_operator.Helpers.Condition.{report}
use s3_operator.Helpers.InstanceRef.{get_s3_instance_ref_info}
use s3_operator.Helpers.Namespaces.{is_allowed_namespaces, fits_any, fits}
use s3_operator.PathLoop
use s3_operator.Bucket
use s3_operator.Bucket.Converges.{Realizes}
use s3_operator.Bucket.Stays.{handle_reconciliation-Stays}
use s3_operator.Tests.World.{World, seen, data_bucket, new_world, settled, run_of}
use s3_operator.Tests.Cluster.{
  data_bucket-IsTarget, cluster, cluster-IsConnected, buckets-IsReporting,
}

abbrev round : World → World
round w = (Bucket.handle_reconciliation cluster data_bucket w).1

handle_reconciliation-Stays_example :
    Realizes data_bucket.spec (pos 20) (seen (round (round new_world)))
    × (seen (round (round (round new_world))) ≡ seen (round (round new_world)))
unfolding Bucket.handle_reconciliation Bucket.with_client Bucket.set_reconciled_condition
    Bucket.handle_creation Bucket.create_quota Bucket.create_paths Bucket.handle_update
    Bucket.update_quota Bucket.reset_quota Bucket.update_paths PathLoop.ensure_paths
    get_s3_client_for_ressource get_s3_client_from_s3_instance client_if_allowed client_if_ready
    get_s3_instance_access_secret ca_certificates value_of is_allowed_namespaces fits_any fits
    has_prefix has_suffix has_infix trim_prefix trim_suffix get_s3_instance_ref_info split report
    Condition.set_reconciled_condition attempt ◌>>=◌
handle_reconciliation-Stays_example =
    handle_reconciliation-Stays cluster-IsConnected buckets-IsReporting data_bucket (pos 20)
      new_world _ _ _ settled settled settled (omega arith) (omega arith) refl data_bucket-IsTarget
      (run_of (Bucket.handle_reconciliation cluster data_bucket new_world) settled refl) refl
      (run_of (Bucket.handle_reconciliation cluster data_bucket (round new_world)) settled refl)
      refl
      (run_of (Bucket.handle_reconciliation cluster data_bucket (round (round new_world))) settled
        refl)
      refl
