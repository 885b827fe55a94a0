-- ===== src/User/Create.antt =====
-- internal/controller/user/reconcile.go, handleCreate: a secret key is drawn, and the user is
-- created with it; a secret that is there already is respected, read or overwritten as configured.
pub mod Conflict
pub mod Provides
pub mod Content
pub mod Keys
pub mod Secures
pub mod Stores
use s3_operator.Prelude.{
  ℕ, String, ◌++◌, Bool, true, false, not, ◌&&◌, ◌||◌, ◌==◌, Option, none, some, List, [], ◌∷◌,
  if◌then◌else◌,
}
use s3_operator.Effect.{
  Error, errorf, Result, ok, err, Eff, pure, panic, ◌>>=◌, handle, attempt, Outcome,
}
use s3_operator.Api.{OwnerReference, S3User, Secret, unreachable, creation_failure, reconciled}
use s3_operator.Text.{join}
use s3_operator.S3.{S3Config, S3Client}
use s3_operator.Cluster.{Reconciler}
use s3_operator.Helpers.Client.{get_s3_client_for_ressource}
use s3_operator.Helpers.Condition.{report}
use s3_operator.Password.{generate}
use s3_operator.User.Secrets.{insert, add_policies_to_user, new_secret_for_cr}

-- The content of a new secret.
unfoldable pub secret_content : S3User → S3Config → String → List (String × String)
unfolding insert
secret_content user config secret_key =
    insert "s3ConnectionURL"
      (config.scheme
        ++ ("://" ++ (user.spec.access_key ++ (":" ++ (secret_key ++ ("@" ++ config.endpoint))))))
      (insert "s3url" config.s3_url (
        insert "s3CACertificate" (join config.ca_certificates_base64 ",") (
          insert "s3region" config.region (
            insert "s3PathStyleUrl" (if config.path_style then "true" else "false") (
              insert user.spec.secret_field_name_secret_key secret_key
                (insert user.spec.secret_field_name_access_key user.spec.access_key []))))))

-- The first owner of the secret that is another S3User.
unfoldable pub conflicting_owner : String → List OwnerReference → Option OwnerReference
conflicting_owner uid [] = none
conflicting_owner uid (ref ∷ refs) =
    if ref.kind == "S3User" && not (ref.uid == uid) then some ref else conflicting_owner uid refs

-- The loop over `existingK8sSecret.Data`, whose keys are distinct.
unfoldable pub read_secret_key : String → String → List (String × String) → String
read_secret_key field secret_key [] = secret_key
read_secret_key field secret_key ((k, v) ∷ content) =
    if k == field then v else read_secret_key field secret_key content

abbrev pub owned_by_other : String → String → String
owned_by_other other user =
    "The secret matching the new S3User's spec is owned by a different, pre-existing S3User ("
    ++ (other
        ++ ("). The S3User being created now ("
            ++ (user
                ++ ") won't be created on the S3 backend until its spec changes to target a different secret")))

abbrev pub conflict_error : Error
conflict_error = errorf "secret matching the new S3User's spec is owned by a different S3User"

abbrev pub kept_error : Error
kept_error =
    errorf
      "secret with the same name already exists ; as the operator is configured to not override nor read any pre-existing secrets, this user will not be created on S3 backend until spec change (to target new secret), or until the operator configuration is changed to override existing secrets"

module _ {W : Type 0} (r : Reconciler W) where
  unfoldable pub set_reconciled_condition : S3User → String → String → Option Error → Eff W Outcome
  set_reconciled_condition = report r r.s3_users

  unfoldable pub with_client : S3User → (S3Client W → Eff W Outcome) → Eff W Outcome
  with_client user rest =
      attempt (get_s3_client_for_ressource r user.namespace user.spec.s3_instance_ref)
        (λ e.
          set_reconciled_condition user unreachable "Failed to generate s3client from instance"
            (some e))
        rest

  -- "Creating the user"
  unfoldable pub create_user : S3Client W → S3User → String → Eff W Outcome → Eff W Outcome
  create_user c user secret_key rest =
      attempt (c.create_user user.spec.access_key secret_key)
        (λ e.
          set_reconciled_condition user unreachable "Creation of user on S3 instance has failed"
            (some e))
        (λ _. rest)

  -- "Add policies", and the last report.
  unfoldable pub add_policies : S3User → String → Eff W Outcome
  add_policies user message =
      attempt (add_policies_to_user r user)
        (λ e. set_reconciled_condition user unreachable message (some e))
        (λ _. set_reconciled_condition user reconciled "User reconciled" none)

  -- "If none exist : we create the user, then the secret".
  unfoldable pub create_with_secret : S3Client W → S3User → Secret → String → Eff W Outcome
  create_with_secret c user secret secret_key = create_user c user secret_key (
      attempt (r.secrets.create secret)
        (λ e.
          set_reconciled_condition user unreachable "Creation of secret for user has failed"
            (some e))
        (λ _. add_policies user "Error while updating policies of user on S3 instance"))

  -- The update of the secret, if the operator is configured so.
  pub override_secret : S3User → Secret → Eff W Outcome → Eff W Outcome
  override_secret user secret rest =
      if r.override_existing_secret
      then attempt (r.secrets.update secret)
          (λ e. set_reconciled_condition user unreachable "Update of secret have failed" (some e))
          (λ _. rest)
      else rest

  -- Cases 3.1 to 3.3: there is a secret of that name.
  unfoldable pub create_with_existing :
      S3Client W → S3User → Secret → Secret → String → Option OwnerReference → Eff W Outcome
  create_with_existing c user secret existing secret_key (some ref) =
      set_reconciled_condition user creation_failure (owned_by_other ref.name user.name)
        (some conflict_error)
  create_with_existing c user secret existing secret_key none =
      if r.override_existing_secret || r.read_existing_secret
      then create_user c user
          (if r.read_existing_secret
            then read_secret_key user.spec.secret_field_name_secret_key secret_key existing.content
            else secret_key)
          (override_secret user secret (add_policies user "Error while updating associated policy"))
      else set_reconciled_condition user creation_failure
          "Creation of user on S3 instance has failed because secret contains invalid credentials. The user's spec should be changed to target a different secret"
          (some kept_error)

  -- What follows the query for the secret.
  unfoldable pub create_after_get :
      S3Client W → S3User → Secret → String → Result Secret → Eff W Outcome
  create_after_get c user secret secret_key (err e) =
      if e.is_not_found
      then create_with_secret c user secret secret_key
      else set_reconciled_condition user unreachable
          "Fail to check if an existing secret already exist" (some e)
  create_after_get c user secret secret_key (ok existing) =
      create_with_existing c user secret existing secret_key
        (conflicting_owner user.uid existing.owner_references)

  -- With the secret key drawn. `none` would be a generator that runs on, which it does not.
  unfoldable pub create_with_key : S3Client W → S3User → Option String → Eff W Outcome
  create_with_key c user none = panic
  create_with_key c user (some secret_key) =
      attempt (pure (new_secret_for_cr r user (secret_content user c.get_config secret_key)))
        (λ e.
          set_reconciled_condition user unreachable "Generation of associated k8s Secret has failed"
            (some e))
        λ secret.
          r.secrets.get (record { namespace = secret.namespace; name = secret.name })
          >>= create_after_get c user secret secret_key

  unfoldable pub handle_create : S3User → Eff W Outcome
  handle_create user = with_client user λ c.
      attempt (generate r.rand_int 20 true false true)
        (λ e.
          set_reconciled_condition user unreachable
            "An error occurred when attempting to generate password for user" (some e))
        λ secret_key. create_with_key c user secret_key
