-- ===== src/Tests/Runs.antt =====
-- Runs of the operator, and the theorems at those runs.
use s3_operator.Prelude.{true, false, ◌≡◌, ◌↔◌, refl, [], pos, arith}
use s3_operator.Effect.{attempt, ◌>>=◌}
use s3_operator.Effect.Post.{OnOk}
use s3_operator.Effect.Returns.{Returns}
use s3_operator.Helpers.InstanceRef.{get_s3_instance_ref_info, info_string}
use s3_operator.Helpers.InstanceRef.RoundTrip.{ref_info-info_string}
use s3_operator.Helpers.Namespaces.{is_allowed_namespaces, fits_any, fits}
use s3_operator.Helpers.Namespaces.Globs.{MayUse, is_allowed_namespaces_iff}
use s3_operator.Helpers.Client.{
  get_s3_client_for_ressource, get_s3_client_from_s3_instance, client_if_allowed, client_if_ready,
  get_s3_instance_access_secret, ca_certificates, value_of,
}
use s3_operator.Helpers.Condition
use s3_operator.Helpers.Condition.{report}
use s3_operator.Text.{has_prefix, has_suffix, has_infix, trim_prefix, trim_suffix, split}
use s3_operator.Password.{generate}
use s3_operator.Password.Generates.{IsRandom, IsPassword, alphanumeric, generate-IsPassword}
use s3_operator.Bucket
use s3_operator.Bucket.Converges
use s3_operator.Tests.World.{data_bucket, instance_with, new_world, seen, settled, run_of}
use s3_operator.Tests.Cluster.{
  data_bucket-IsTarget, cluster, cluster-IsConnected, buckets-IsReporting,
}

-- A new bucket gets its paths, and the default quota.
handle_reconciliation-Realizes_example :
    Converges.Realizes data_bucket.spec
      (pos 10)
      (seen (Bucket.handle_reconciliation cluster data_bucket new_world).1)
unfolding Bucket.handle_reconciliation Bucket.with_client Bucket.set_reconciled_condition
    Bucket.handle_creation Bucket.create_quota Bucket.create_paths get_s3_client_for_ressource
    get_s3_client_from_s3_instance client_if_allowed client_if_ready get_s3_instance_access_secret
    ca_certificates value_of is_allowed_namespaces fits_any fits has_prefix has_suffix has_infix
    trim_prefix trim_suffix get_s3_instance_ref_info split report Condition.set_reconciled_condition
    attempt ◌>>=◌
handle_reconciliation-Realizes_example =
    Converges.handle_reconciliation-Realizes cluster-IsConnected buckets-IsReporting data_bucket
      (pos 20) new_world _ settled (omega arith) (omega arith) refl data_bucket-IsTarget
      (run_of (Bucket.handle_reconciliation cluster data_bucket new_world) settled refl) refl

is_allowed_namespaces_iff_example :
    (is_allowed_namespaces "user-ana" (instance_with []) ≡ true)
    ↔ MayUse "user-ana" (instance_with [])
is_allowed_namespaces_iff_example = is_allowed_namespaces_iff "user-ana" (instance_with [])

ref_info-info_string_example :
    get_s3_instance_ref_info
      (info_string (record { name = "main"; namespace = "storage" }))
      "user-ana"
    ≡ record { name = "main"; namespace = "storage" }
ref_info-info_string_example =
    ref_info-info_string (record { name = "main"; namespace = "storage" }) "user-ana"
      (refl, (refl, (refl, (refl, (refl, (refl, (refl, tt))))))) (refl, (refl, (refl, (refl, tt))))

cluster-IsRandom : IsRandom cluster.rand_int
cluster-IsRandom = record { draws = λ m w h. record { at = h } }

generate-IsPassword_example :
    Returns
      (OnOk (λ o _. IsPassword alphanumeric 20 o))
      (generate cluster.rand_int 20 true false true)
      new_world
generate-IsPassword_example = generate-IsPassword cluster-IsRandom 20 true false true new_world
