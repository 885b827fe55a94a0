-- ===== src/User/Secrets/Reads.antt =====
-- The secrets of a user are read without touching the backend.
use s3_operator.Effect.Leaves.{Leaves, Leaves-attempt, Leaves-pure}
use s3_operator.Api.{S3User}
use s3_operator.S3.Backend.{Backend}
use s3_operator.Cluster.{Reconciler}
use s3_operator.Cluster.Laws.{IsStoring}
use s3_operator.User.Secrets.{get_user_linked_secrets}

module _ {W : Type 0} {view : W → Backend} (r : Reconciler W)
    (storing : IsStoring view r.secrets) where
  pub linked_secrets-Leaves : (user : S3User) → Leaves view (get_user_linked_secrets r user)
  unfolding get_user_linked_secrets
  linked_secrets-Leaves user =
      Leaves-attempt _ _ _ (storing.list_lem user.namespace) (λ e. Leaves-pure _)
        (λ a. Leaves-pure _)
