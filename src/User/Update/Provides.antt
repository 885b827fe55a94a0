-- ===== src/User/Update/Provides.antt =====
-- What the update of a user, and its whole reconciliation, brings about on the backend, if it
-- returns no error.
use s3_operator.Prelude.{
  Bool, true, false, ◌==◌, ◌≡◌, sym, ◌∙◌, ap, subst, Option, none, some, List, [], ◌∷◌, is_some,
  Bool-cases, inl, inr,
}
use s3_operator.Effect.{returned, Outcome}
use s3_operator.Effect.Post.{Post, Post-attempt, Post-any, Post-run, Sound}
use s3_operator.Api.{S3User, Secret}
use s3_operator.S3.{S3Client}
use s3_operator.S3.Backend.{Backend}
use s3_operator.S3.Laws.{IsLawful}
use s3_operator.Cluster.{Reconciler}
use s3_operator.Cluster.Laws.{IsConnected, IsReporting, IsStoring, OnOk-Leaves}
use s3_operator.Helpers.Condition.Reports.{report-Sound}
use s3_operator.Helpers.Client.Serves.{for_ressource-Sound}
use s3_operator.User.Secrets.{secret_name_of, delete_secret}
use s3_operator.User.Create.{set_reconciled_condition, with_client}
use s3_operator.User.Create.Provides.{HasUser, Aim, report-HasUser, handle_create-Sound}
use s3_operator.User.Update.{
  recreate, replace_credentials, check_credentials, update_with_secret, choose_secret,
  update_by_secrets, handle_update, handle_reconciliation,
}
use s3_operator.User.Secrets.Reads.{linked_secrets-Leaves}
use s3_operator.User.Update.Synchronizes.{update_policies-Sound}

module _ {W : Type 0} {view : W → Backend} {r : Reconciler W} (k : IsConnected view r)
    (reporting : IsReporting view r.s3_users) (storing : IsStoring view r.secrets)
    (user : S3User) where
  recreate-HasUser :
      (c : S3Client W) (w : W) → Post (Aim k reporting storing user) (recreate r c user) w
  unfolding recreate set_reconciled_condition
  recreate-HasUser c w =
      Post-attempt {P = λ _ _. Unit} _ _ _ w (Post-any _ w)
        (λ e v. report-Sound r r.s3_users user _ _ e v)
        (λ _ v _. handle_create-Sound k reporting storing user v)

  replace_credentials-HasUser :
      (c : S3Client W) (owned : Bool) (secret : Secret) (w : W)
      → Post (Aim k reporting storing user) (replace_credentials r c user owned secret) w
  unfolding replace_credentials set_reconciled_condition
  replace_credentials-HasUser c false secret w = recreate-HasUser c w
  replace_credentials-HasUser c true secret w =
      Post-attempt {P = λ _ _. Unit} _ _ _ w (Post-any _ w)
        (λ e v. report-Sound r r.s3_users user _ _ e v) (λ _ v _. recreate-HasUser c v)

  check_credentials-HasUser :
      (c : S3Client W) (owned : Bool) (secret : Secret) (w : W)
      → IsLawful view c
      → HasUser user (view w)
      → Post (Aim k reporting storing user) (check_credentials r c user owned secret) w
  unfolding check_credentials set_reconciled_condition
  check_credentials-HasUser c owned secret w lawful there =
      Post-attempt _ _ _ w (lawful.check_user_credentials_valid_lem _ _ _ w)
        (λ e v. report-Sound r r.s3_users user _ _ e v)
        λ valid v same. elim (Bool-cases valid) [
          | inl y ↦ rw y (
              report-HasUser k reporting storing user _ _ v (subst (HasUser user) (sym same) there))
          | inr n ↦ rw n (replace_credentials-HasUser c owned secret v)
        ]

  update_with_secret-HasUser :
      (c : S3Client W) (owned : Bool) (secret : Secret) (w : W)
      → IsLawful view c
      → is_some ((view w).secret_key_of user.spec.access_key) ≡ true
      → Post (Aim k reporting storing user) (update_with_secret r c user owned secret) w
  unfolding update_with_secret
  update_with_secret-HasUser c owned secret w lawful there =
      update_policies-Sound r user c _ w lawful λ v synchronized same_keys.
        check_credentials-HasUser c owned secret v lawful (record {
          exists = ap (λ f. is_some (f user.spec.access_key)) same_keys ∙ there;
          policies_there = λ p h. synchronized p ∙ h;
        })

  choose_secret-HasUser :
      (c : S3Client W) (found : Option Secret) (secrets : List Secret) (w : W)
      → IsLawful view c
      → is_some ((view w).secret_key_of user.spec.access_key) ≡ true
      → Post (Aim k reporting storing user) (choose_secret r c user found secrets) w
  unfolding choose_secret set_reconciled_condition delete_secret
  choose_secret-HasUser c none [] w lawful there = recreate-HasUser c w
  choose_secret-HasUser c (some secret) [] w lawful there =
      update_with_secret-HasUser c true secret w lawful there
  choose_secret-HasUser c found (secret ∷ secrets) w lawful there =
      elim (Bool-cases (secret.name == secret_name_of user)) [
        | inl e ↦ simp e (choose_secret-HasUser c (some secret) secrets w lawful there)
        | inr e ↦ simp e (
            Post-attempt _ _ _ w (OnOk-Leaves _ (storing.delete_lem secret) w)
              (λ x v. report-Sound r r.s3_users user _ _ x v)
              λ _ v same.
                choose_secret-HasUser c found secrets v lawful
                  (ap (λ s. is_some (s.secret_key_of user.spec.access_key)) same ∙ there))
      ]

  update_by_secrets-HasUser :
      (c : S3Client W) (owned : List Secret) (unlinked : Option Secret) (w : W)
      → IsLawful view c
      → is_some ((view w).secret_key_of user.spec.access_key) ≡ true
      → Post (Aim k reporting storing user) (update_by_secrets r c user owned unlinked) w
  unfolding update_by_secrets
  update_by_secrets-HasUser c [] none w lawful there = recreate-HasUser c w
  update_by_secrets-HasUser c owned (some secret) w lawful there =
      update_with_secret-HasUser c false secret w lawful there
  update_by_secrets-HasUser c (secret ∷ owned) none w lawful there =
      choose_secret-HasUser c none (secret ∷ owned) w lawful there

  handle_update-HasUser :
      (w : W)
      → is_some ((view w).secret_key_of user.spec.access_key) ≡ true
      → Post (Sound (λ v. HasUser user (view v))) (handle_update r user) w
  unfolding handle_update with_client set_reconciled_condition
  handle_update-HasUser w there = for_ressource-Sound k r.s3_users user _ _ _ _ w λ c v lawful same.
      Post-attempt _ _ _ v (OnOk-Leaves _ (linked_secrets-Leaves r storing user) v)
        (λ e u. report-Sound r r.s3_users user _ _ e u)
        λ found u still.
          update_by_secrets-HasUser c found.owned found.not_owned_configured u lawful
            (ap (λ s. is_some (s.secret_key_of user.spec.access_key)) (still ∙ same) ∙ there)

  pub handle_reconciliation-Sound :
      (w : W) → Post (Sound (λ v. HasUser user (view v))) (handle_reconciliation r user) w
  unfolding handle_reconciliation with_client set_reconciled_condition
  handle_reconciliation-Sound w = for_ressource-Sound k r.s3_users user _ _ _ _ w λ c v lawful same.
      Post-attempt _ _ _ v (lawful.user_exist_lem user.spec.access_key v)
        (λ e u. report-Sound r r.s3_users user _ _ e u)
        λ found u (reads, still). elim (Bool-cases found) [
          | inl y ↦ rw y (
              handle_update-HasUser u
                (ap (λ s. is_some (s.secret_key_of user.spec.access_key)) still ∙ sym reads ∙ y))
          | inr n ↦ rw n (handle_create-Sound k reporting storing user u)
        ]

  -- Where clients are lawful and the API server's calls leave the backend alone: if the
  -- reconciliation of a user returns no error, the backend has the user, with every policy of the
  -- spec, whether it was there before or not.
  pub handle_reconciliation-HasUser :
      (w v : W) (a : Outcome)
      → handle_reconciliation r user w ≡ (returned a, v)
      → a.error ≡ none
      → HasUser user (view v)
  handle_reconciliation-HasUser w v a run fine =
      Post-run _ w (handle_reconciliation-Sound w) a v run fine
