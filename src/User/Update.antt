-- ===== src/User/Update.antt =====
-- internal/controller/user/reconcile.go, handleUpdate, handleReconciliation and Reconcile: the
-- secret, the policies and the credentials of a user that is there are brought in line with its
-- spec.
pub mod Policies
pub mod Synchronizes
pub mod Provides
use s3_operator.Prelude.{
  String, ◌++◌, Bool, true, false, not, ◌==◌, Option, none, some, List, [], ◌∷◌, contains, is_empty,
  if◌then◌else◌,
}
use s3_operator.Effect.{Error, Result, ok, err, Eff, pure, ◌>>=◌, attempt, Outcome}
use s3_operator.Api.{S3User, Secret, unreachable, reconciled, NamespacedName}
use s3_operator.S3.{S3Client}
use s3_operator.Cluster.{Reconciler}
use s3_operator.Helpers.Client.{value_of}
use s3_operator.User.Secrets.{
  policies_of, secret_name_of, LinkedSecrets, get_user_linked_secrets, delete_secret,
}
use s3_operator.User.Create.{set_reconciled_condition, with_client, handle_create}

-- The policies of the list `from` that are not in the list `other`, in order.
unfoldable pub missing_from : List String → List String → List String
missing_from other [] = []
missing_from other (policy ∷ from) =
    let rest = missing_from other from in
    if not (contains other policy) then policy ∷ rest else rest

abbrev pub policy_to_delete : S3User → List String → List String
policy_to_delete user user_policies = missing_from (policies_of user) user_policies

abbrev pub policy_to_add : S3User → List String → List String
policy_to_add user user_policies = missing_from user_policies (policies_of user)

module _ {W : Type 0} (r : Reconciler W) where
  -- The user is deleted on the backend and created anew.
  pub recreate : S3Client W → S3User → Eff W Outcome
  recreate c user =
      attempt (c.delete_user user.spec.access_key)
        (λ e.
          set_reconciled_condition r user unreachable
            ("Deletion of S3user " ++ (user.name ++ " on S3 server has failed")) (some e))
        (λ _. handle_create r user)

  -- "The secret containing the credentials will be deleted", if the user owns it.
  pub replace_credentials : S3Client W → S3User → Bool → Secret → Eff W Outcome
  replace_credentials c user owned_secret current_user_secret =
      if owned_secret
      then attempt (delete_secret r current_user_secret)
          (λ e.
            set_reconciled_condition r user unreachable
              "Deletion of secret associated to user have failed" (some e))
          (λ _. recreate c user)
      else recreate c user

  pub check_credentials : S3Client W → S3User → Bool → Secret → Eff W Outcome
  check_credentials c user owned_secret current_user_secret =
      attempt
        (c.check_user_credentials_valid user.name
          (value_of user.spec.secret_field_name_access_key current_user_secret.content)
          (value_of user.spec.secret_field_name_secret_key current_user_secret.content))
        (λ e.
          set_reconciled_condition r user unreachable "Checking credentials on S3 server has failed"
            (some e))
        λ credentials_valid.
          if not credentials_valid
          then replace_credentials c user owned_secret current_user_secret
          else set_reconciled_condition r user reconciled "User reconciled" none

  -- `if len(policies) > 0 { err = change(policies) }`
  unfoldable pub change_policies :
      S3User
      → (List String → Eff W (Result (Unit {0})))
      → List String
      → Eff W Outcome
      → Eff W Outcome
  change_policies user change policies rest =
      if not (is_empty policies)
      then attempt (change policies)
          (λ e.
            set_reconciled_condition r user unreachable "Error while updating policies of user"
              (some e))
          (λ _. rest)
      else rest

  unfoldable pub update_policies : S3Client W → S3User → Eff W Outcome → Eff W Outcome
  update_policies c user rest =
      attempt (c.get_user_policies user.spec.access_key)
        (λ e.
          set_reconciled_condition r user unreachable "Checking the S3user policies has failed"
            (some e))
        λ user_policies.
          change_policies user (c.remove_policies_from_user user.spec.access_key)
            (policy_to_delete user user_policies)
            (change_policies user (c.add_policies_to_user user.spec.access_key)
              (policy_to_add user user_policies) rest)

  -- The policies and the credentials, once the secret is known.
  pub update_with_secret : S3Client W → S3User → Bool → Secret → Eff W Outcome
  update_with_secret c user owned_secret current_user_secret =
      update_policies c user (check_credentials c user owned_secret current_user_secret)

  -- The loop over the secrets that the user owns: those of another name are deleted, and the last
  -- of the right name is the user's.
  pub choose_secret : S3Client W → S3User → Option Secret → List Secret → Eff W Outcome
  choose_secret c user none [] = recreate c user
  choose_secret c user (some current_user_secret) [] =
      update_with_secret c user true current_user_secret
  choose_secret c user found (linkedsecret ∷ secrets) =
      if not (linkedsecret.name == secret_name_of user)
      then attempt (delete_secret r linkedsecret)
          (λ e.
            set_reconciled_condition r user unreachable "Failed to delete old linkedSecret"
              (some e))
          (λ _. choose_secret c user found secrets)
      else choose_secret c user (some linkedsecret) secrets

  -- The three cases of the secrets that are there.
  pub update_by_secrets : S3Client W → S3User → List Secret → Option Secret → Eff W Outcome
  update_by_secrets c user [] none = recreate c user
  update_by_secrets c user owned (some unlinked) = update_with_secret c user false unlinked
  update_by_secrets c user (secret ∷ owned) none = choose_secret c user none (secret ∷ owned)

  pub handle_update : S3User → Eff W Outcome
  handle_update user = with_client r user λ c.
      attempt (get_user_linked_secrets r user)
        (λ e.
          set_reconciled_condition r user unreachable "Impossible to list the user's secret"
            (some e))
        λ found. update_by_secrets c user found.owned found.not_owned_configured

  unfoldable pub handle_reconciliation : S3User → Eff W Outcome
  handle_reconciliation user = with_client r user λ c.
      attempt (c.user_exist user.spec.access_key)
        (λ e. set_reconciled_condition r user unreachable "Fail to check existence" (some e))
        λ found. if not found then handle_create r user else handle_update user
