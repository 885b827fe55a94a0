-- ===== src/User/Finalizer/Reconciles.antt =====
-- internal/controller/user/reconcile.go, Reconcile: what a request for a user brings about, from
-- the first read of the object to the last report.
use s3_operator.Prelude.{Bool, false, ◌≡◌, refl, none}
use s3_operator.Effect.{returned, Outcome}
use s3_operator.Effect.Post.{Post, Sound}
use s3_operator.Api.{S3User, NamespacedName}
use s3_operator.S3.Backend.{Backend, UserRemoved}
use s3_operator.Cluster.{Reconciler}
use s3_operator.Cluster.Laws.{IsConnected, IsReading, IsUpdating, IsReporting, IsStoring}
use s3_operator.Helpers.Client.Gives.{Permits, Permitted}
use s3_operator.Lifecycle.Concludes.{Concludes}
use s3_operator.Lifecycle.Handles.{HandledBy, reconcile-Handled}
use s3_operator.User.Create.Provides.{HasUser}
use s3_operator.User.Update.Provides.{handle_reconciliation-Sound}
use s3_operator.User.Finalizer.{user_finalizer, handle_deletion, reconcile}
use s3_operator.User.Finalizer.Deletes.{handle_deletion-Sound}

module _ {W : Type 0} {view : W → Backend} (r : Reconciler W) where
  handle_deletion-passes :
      (user : S3User) (w : W)
      → r.machinery.contains_finalizer user.finalizers user_finalizer ≡ false
      → Post (Sound (λ v. view v ≡ view w)) (handle_deletion r user) w
  unfolding handle_deletion
  handle_deletion-passes user w has = rw has (record { at = λ _. refl })

module _ {W : Type 0} {view : W → Backend} {r : Reconciler W} (k : IsConnected view r)
    (reading : IsReading view r.s3_users) (updating : IsUpdating view r.s3_users)
    (reporting : IsReporting view r.s3_users) (storing : IsStoring view r.secrets) (enabled : Bool)
    (permits : Permits (λ g. g.s3_user_deletion_enabled) enabled r) where
  -- Where clients are lawful, the API server's calls leave the backend alone, and the deletion of
  -- users is enabled for all the instances that are read, or for none: a run of Reconcile that
  -- returns no error has ended in one of three ways. The API server had no such user, and the
  -- backend is as it was; or the request is to be repeated, and the backend is as it was; or a user
  -- that was served has been handled. If that is not marked for deletion, the backend has it, with
  -- every policy of the spec. If it is marked and has the operator's finalizer, it is gone where
  -- deletion is enabled, and the backend is as it was where not. If it is marked and has no such
  -- finalizer, the backend is as it was.
  pub reconcile_user-Concludes :
      (req : NamespacedName) (w v : W) (a : Outcome)
      → reconcile r req w ≡ (returned a, v)
      → a.error ≡ none
      → Concludes r.s3_users req
          (HandledBy r user_finalizer
            (λ user. Permitted enabled (UserRemoved user.spec.access_key))
            (λ user s t. HasUser user t))
          view
          w
          a
          v
  unfolding reconcile handle_deletion
  reconcile_user-Concludes req w v a =
      reconcile-Handled r r.s3_users reading updating reporting user_finalizer _ _ req _ _
        (λ user u served. handle_deletion-Sound k updating storing enabled permits user u)
        (handle_deletion-passes r)
        (λ user u served. handle_reconciliation-Sound k reporting storing user u) w v a
