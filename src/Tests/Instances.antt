-- ===== src/Tests/Instances.antt =====
-- The deletion of an instance that a bucket refers to.
use mathlib.Core.List.{Permᴰ}
use s3_operator.Prelude.{true, ◌≡◌, ◌↔◌, ◌⊎◌, refl, [], ◌∷◌, is_some}
use s3_operator.Effect.{attempt, ◌>>=◌, Outcome, failed}
use s3_operator.Text.{has_prefix, has_infix, split}
use s3_operator.Helpers.InstanceRef.{get_s3_instance_ref_info}
use s3_operator.Instance.{
  ReferenceKind, KeyOrder, references, check_kinds, refers_to, count_references, check_list,
  check_kind, check_s3_instance_references, still_referred, handle_s3_instance_deletion,
}
use s3_operator.Instance.Referred.{
  Objects, IsListing, IsFree, refers_to_iff, handle_s3_instance_deletion-kept,
}
use s3_operator.Tests.World.{World, instance_with, ready, new_world, run_of}
use s3_operator.Tests.Cluster.{cluster}

abbrev objects : World → Objects
objects w = record {
  buckets = w.bucket ∷ [];
  policies = w.policy ∷ [];
  paths = w.path ∷ [];
  s3_users = w.s3_user ∷ [];
  s3_instances = w.s3_instance ∷ [];
}

cluster-IsListing : IsListing objects cluster
cluster-IsListing = record {
  buckets_lem = λ w. record { at = (refl, refl) };
  policies_lem = λ w. record { at = (refl, refl) };
  paths_lem = λ w. record { at = (refl, refl) };
  s3_users_lem = λ w. record { at = (refl, refl) };
}

-- Paths, then buckets, users and policies.
abbrev order : KeyOrder
order [] = []
order (b ∷ p ∷ t ∷ u ∷ []) = t ∷ b ∷ u ∷ p ∷ []
order kinds = kinds

order-visits : Permᴰ (order references) references
order-visits =
    Permᴰ.trans (Permᴰ.swap refl refl) (
      Permᴰ.cons refl (Permᴰ.trans (Permᴰ.cons refl (Permᴰ.swap refl refl)) (Permᴰ.swap refl refl)))

abbrev refusal : Outcome
refusal = failed (still_referred cluster ReferenceKind.paths 1)

handle_s3_instance_deletion-kept_example :
    ((kind : ReferenceKind) → IsFree (instance_with (ready ∷ [])) (objects new_world) kind)
    ⊎ ((is_some refusal.error ≡ true)
        × (objects
              (handle_s3_instance_deletion cluster order (instance_with (ready ∷ [])) new_world).1
            ≡ objects new_world))
unfolding handle_s3_instance_deletion check_s3_instance_references check_kinds check_kind check_list
    count_references refers_to get_s3_instance_ref_info has_infix has_prefix split attempt ◌>>=◌
handle_s3_instance_deletion-kept_example =
    handle_s3_instance_deletion-kept cluster-IsListing (instance_with (ready ∷ [])) order
      order-visits new_world _ refusal refl
      (run_of (handle_s3_instance_deletion cluster order (instance_with (ready ∷ [])) new_world)
        refusal refl)

refers_to_iff_example : (refers_to (instance_with []) "storage/main" "user-ana" ≡ true) ↔ (
    get_s3_instance_ref_info "storage/main" "user-ana"
    ≡ record { name = "main"; namespace = "storage" })
unfolding get_s3_instance_ref_info has_infix has_prefix split
refers_to_iff_example =
    refers_to_iff (instance_with []) "storage/main" "user-ana"
      (refl, (refl, (refl, (refl, (refl, (refl, (refl, tt))))))) (refl, (refl, (refl, (refl, tt))))
      (refl, (refl, (refl, (refl, (refl, (refl, (refl, tt))))))) (refl, (refl, (refl, (refl, tt))))
