-- ===== src/User/Finalizer/Deletes.antt =====
-- What a user's deletion brings about on the backend, if it returns no error.
use s3_operator.Prelude.{Bool, true, ◌≡◌, sym, subst, List, [], ◌∷◌}
use s3_operator.Effect.{Outcome, Eff}
use s3_operator.Effect.Post.{Post, Post-attempt, Sound}
use s3_operator.Api.{S3User, Secret}
use s3_operator.S3.Backend.{Backend, UserRemoved}
use s3_operator.Cluster.{Reconciler}
use s3_operator.Cluster.Laws.{IsConnected, IsUpdating, IsStoring, OnOk-Leaves}
use s3_operator.Helpers.Condition.Reports.{report-Sound}
use s3_operator.Helpers.Client.Gives.{Permits, Permitted, for_ressource-Permitted}
use s3_operator.Lifecycle.Deletes.{release-Sound}
use s3_operator.User.Secrets.{delete_secret}
use s3_operator.User.Secrets.Reads.{linked_secrets-Leaves}
use s3_operator.User.Create.{set_reconciled_condition}
use s3_operator.User.Finalizer.{user_finalizer, finalize_s3_user, delete_secrets, handle_deletion}

module _ {W : Type 0} {view : W → Backend} (r : Reconciler W) (storing : IsStoring view r.secrets)
    (user : S3User) where
  -- The secrets are of no matter to the backend.
  delete_secrets-Sound :
      (G : Backend → Type 0) (secrets : List Secret) (rest : Eff W Outcome) (w : W)
      → G (view w)
      → ((v : W) → G (view v) → Post (Sound (λ u. G (view u))) rest v)
      → Post (Sound (λ u. G (view u))) (delete_secrets r user secrets rest) w
  unfolding delete_secrets delete_secret set_reconciled_condition
  delete_secrets-Sound G [] rest w g h = h w g
  delete_secrets-Sound G (s ∷ secrets) rest w g h =
      Post-attempt {P = λ _ v. view v ≡ view w} _ _ _ w (OnOk-Leaves _ (storing.delete_lem s) w)
        (λ e v. report-Sound r r.s3_users user _ _ e v)
        λ _ v same. delete_secrets-Sound G secrets rest v (subst G (sym same) g) h

module _ {W : Type 0} {view : W → Backend} {r : Reconciler W} (k : IsConnected view r)
    (updating : IsUpdating view r.s3_users) (storing : IsStoring view r.secrets) (enabled : Bool)
    (permits : Permits (λ g. g.s3_user_deletion_enabled) enabled r) where
  pub handle_deletion-Sound :
      (user : S3User) (w : W)
      → r.machinery.contains_finalizer user.finalizers user_finalizer ≡ true
      → Post
          (Sound (λ v. Permitted enabled (UserRemoved user.spec.access_key) (view w) (view v)))
          (handle_deletion r user)
          w
  unfolding handle_deletion finalize_s3_user set_reconciled_condition
  handle_deletion-Sound user w has =
      let G : Backend → Type 0 =
        λ s. Permitted enabled (UserRemoved user.spec.access_key) (view w) s in
      rw has (
        Post-attempt {P = λ _ v. G (view v)} _ _ _ w
          (for_ressource-Permitted k (λ g. g.s3_user_deletion_enabled) enabled permits
            (UserRemoved user.spec.access_key) (λ c. c.delete_user user.spec.access_key)
            (λ c u lawful. lawful.delete_user_lem user.spec.access_key u) user.namespace
            user.spec.s3_instance_ref w)
          (λ e v. report-Sound r r.s3_users user _ _ e v)
          λ _ v g.
            Post-attempt {P = λ _ u. view u ≡ view v} _ _ _ v
              (OnOk-Leaves _ (linked_secrets-Leaves r storing user) v)
              (λ e v. report-Sound r r.s3_users user _ _ e v)
              λ found u same.
                delete_secrets-Sound r storing user G found.owned _ u (subst G (sym same) g)
                  λ t g. release-Sound r r.s3_users updating G user_finalizer user t g)
