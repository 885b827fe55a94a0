-- ===== src/User/Finalizer.antt =====
-- internal/controller/user/finalizer.go, and Reconcile of reconcile.go.
pub mod Deletes
pub mod Reconciles
use s3_operator.Prelude.{String, some, List, [], ◌∷◌, if◌then◌else◌}
use s3_operator.Effect.{Result, ok, err, Eff, pure, attempt, Outcome, done}
use s3_operator.Api.{S3User, Secret, deletion_failure, NamespacedName}
use s3_operator.Cluster.{Reconciler}
use s3_operator.Helpers.Client.{get_s3_client_for_ressource}
use s3_operator.Lifecycle
use s3_operator.User.Secrets.{get_user_linked_secrets, delete_secret}
use s3_operator.User.Create.{set_reconciled_condition}
use s3_operator.User.Update.{handle_reconciliation}

abbrev pub user_finalizer : String
user_finalizer = "s3.onyxia.sh/userFinalizer"

module _ {W : Type 0} (r : Reconciler W) where
  unfoldable pub finalize_s3_user : S3User → Eff W (Result (Unit {0}))
  finalize_s3_user user =
      attempt (get_s3_client_for_ressource r user.namespace user.spec.s3_instance_ref)
        (λ e. pure (err e))
        λ c.
          if c.get_config.s3_user_deletion_enabled
          then c.delete_user user.spec.access_key
          else pure (ok tt)

  -- The loop over the secrets that the user owns.
  unfoldable pub delete_secrets : S3User → List Secret → Eff W Outcome → Eff W Outcome
  delete_secrets user [] rest = rest
  delete_secrets user (linked_secret ∷ secrets) rest =
      attempt (delete_secret r linked_secret)
        (λ e.
          set_reconciled_condition r user deletion_failure
            "Deletion of secret associated to user have failed" (some e))
        (λ _. delete_secrets user secrets rest)

  unfoldable pub handle_deletion : S3User → Eff W Outcome
  handle_deletion user =
      if r.machinery.contains_finalizer user.finalizers user_finalizer
      then attempt (finalize_s3_user user)
          (λ e.
            set_reconciled_condition r user deletion_failure "user deletion has failed" (some e))
          (λ _.
            attempt (get_user_linked_secrets r user)
              (λ e.
                set_reconciled_condition r user deletion_failure
                  "An error occurred when trying to list secret linked to user" (some e))
              λ found.
                delete_secrets user found.owned
                  (Lifecycle.release r r.s3_users user_finalizer user))
      else pure done

  unfoldable pub reconcile : NamespacedName → Eff W Outcome
  reconcile =
      Lifecycle.reconcile r r.s3_users user_finalizer handle_deletion (handle_reconciliation r)
