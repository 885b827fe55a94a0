-- ===== src/User.antt =====
-- internal/controller/user: the controller of the kind S3User. `Secrets` is utils.go, `Create` and
-- `Update` are reconcile.go, and `Finalizer` is finalizer.go.
pub mod Secrets
pub mod Create
pub mod Update
pub mod Finalizer
