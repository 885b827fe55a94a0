-- ===== src/User/Update/Policies.antt =====
-- The two lists of policies that an update computes bring the user's policies to those of the spec.
use s3_operator.Prelude.{
  String, Bool, not, ◌&&◌, ◌||◌, ◌==◌, ◌≡◌, refl, List, [], ◌∷◌, contains, arith, eq_iff,
  Bool-cases, inl, inr,
}
use s3_operator.Api.{S3User}
use s3_operator.User.Secrets.{policies_of}
use s3_operator.User.Update.{missing_from, policy_to_delete, policy_to_add}

-- The policies of a user on the backend behind a call that removes, and one that adds, policies: as
-- sets, which is how the backend keeps them.
abbrev pub detached : (String → Bool) → List String → String → Bool
detached held removed policy = held policy && not (contains removed policy)

abbrev pub attached : (String → Bool) → List String → String → Bool
attached held added policy = held policy || contains added policy

pub contains-missing_from :
    (other from : List String) (p : String)
    → contains (missing_from other from) p ≡ (contains from p && not (contains other p))
unfolding missing_from
contains-missing_from other [] p = refl
contains-missing_from other (q ∷ from) p = elim (Bool-cases (q == p)) [
  | inl e ↦ rw ((eq_iff q p).0 e) (ground (arith, contains-missing_from other from p, eq_iff p p))
  | inr e ↦ ground (arith, contains-missing_from other from p, e)
]

-- Removing `policyToDelete` from the policies that the user has, and adding `policyToAdd`, leaves
-- the user with exactly the policies of the spec.
pub update-policies_of :
    (user : S3User) (user_policies : List String) (policy : String)
    → attached
        (detached (contains user_policies) (policy_to_delete user user_policies))
        (policy_to_add user user_policies)
        policy
      ≡ contains (policies_of user) policy
update-policies_of user user_policies policy = ground (
  arith,
  contains-missing_from (policies_of user) user_policies policy,
  contains-missing_from user_policies (policies_of user) policy,
)

-- Neither list has a policy that need not change: one is deleted only if the user has it and the
-- spec does not, and added only if the spec has it and the user does not.
update_minimal :
    (user : S3User) (user_policies : List String) (policy : String)
    → (contains (policy_to_delete user user_policies) policy
        ≡ (contains user_policies policy && not (contains (policies_of user) policy)))
      × (contains (policy_to_add user user_policies) policy
          ≡ (contains (policies_of user) policy && not (contains user_policies policy)))
update_minimal user user_policies policy = (
  contains-missing_from (policies_of user) user_policies policy,
  contains-missing_from user_policies (policies_of user) policy,
)
