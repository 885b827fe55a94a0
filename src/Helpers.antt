-- ===== src/Helpers.antt =====
-- internal/helpers: the references to S3 instances and who may use one (s3instance.go), the client
-- for a resource (s3instance.go), and the reconciled condition (controller.go).
pub mod InstanceRef
pub mod Namespaces
pub mod Client
pub mod Condition
