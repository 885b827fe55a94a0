-- ===== src/Lib.antt =====
-- The s3-operator, a Kubernetes operator that keeps buckets, paths, policies and users of S3
-- backends in line with custom resources.
--
-- Parts and files. Paths are from the repository's root.
--   Prelude, Effect, Text    shared names; effectful Go code; the functions of Go's package strings
--   Api                      api/v1alpha1: the custom resources and their conditions
--   S3                       internal/s3/client/s3client.go, internal/s3/factory/s3factory.go: the
--                            interfaces; S3.Backend is the abstract view of a backend, and S3.Laws
--                            says what a client does to it
--   S3.Minio, S3.Mocked      internal/s3/client/impl: the client of a MinIO server, from the libraries
--                            of S3.Minio.Sdk, and the mocked client
--   S3.Factory               internal/s3/factory/impl/s3factoryImpl.go
--   Cluster                  the libraries of Kubernetes as interfaces, and the reconcilers' fields
--   Helpers                  internal/helpers: InstanceRef, Namespaces and Client are s3instance.go,
--                            Condition is controller.go
--   Password                 internal/helpers/password_generator.go
--   Lifecycle                what the five Reconcile and handleDeletion methods have in common
--   PathLoop                 the loop over paths of the bucket and the path controller
--   Bucket, PathCr, Policy, Instance, User
--                            internal/controller/{bucket,path,policy,s3instance,user}
--   Events                   the event filters of the five SetupWithManager methods
--   Main                     cmd/main.go: the flags, the certificates and the set-up of the manager;
--                            Main.Setup is what the five SetupWithManager methods ask for, and
--                            Main.History what a start asks of the libraries
--   Composed                 the controllers with the operator's own factory and client of MinIO
--   Tests                    a small cluster, and the theorems at runs in it
--
-- How it is modelled. A call is a function from the world, which is everything outside the process,
-- to an exit and a new world (Effect.Eff). An exit is a value or a panic. `a, err := f(); if err !=
-- nil` is `attempt`, with what follows as its last argument. A handler is one function, or a chain
-- of functions of which each ends in a call of the next; the names are those of the source in snake
-- case. The methods take the reconciler, a record of interfaces, as their first argument. What a
-- method changes through a pointer is returned. Logging is left out.
--
-- A controller asks S3InstanceHelper for a client of the backend (Helpers.Client), brings the
-- backend in line through it, and reports the outcome as the condition Reconciled
-- (Helpers.Condition). The theorems on controllers are about any client that is lawful
-- (S3.Laws.IsLawful): a call without an error has had its documented effect, and of a call with an
-- error nothing is asked. S3.Minio.Server says what the libraries' calls do on a MinIO server,
-- S3.Minio.Implements that the client is lawful then, and Composed puts the two together.
--
-- Bounds. The only loop that is not over a list is the password generator's, which draws a
-- character again if it may not be repeated. It runs on fuel, and the operator allows repeats, so
-- that one unit for each character is enough. Quotas are integers in the controllers, which compare
-- them and pass them on; the client of MinIO converts between int64 and uint64 modulo 2^64
-- (S3.Minio.Quota), and a lawful client is asked to set only quotas that are int64 values.
--
-- Not modelled. In cmd/main.go the registration of the scheme and the logger; generated deep
-- copies, and the mocks of the tests. The libraries (flag, controller runtime, apimachinery,
-- minio-go, madmin-go, net/url, crypto/x509, encoding/json, crypto/rand) are parameters, with what
-- a property needs of them among its hypotheses.
pub mod Prelude
pub mod Effect
pub mod Text
pub mod Helpers
pub mod Api
pub mod S3
pub mod Cluster
pub mod Password
pub mod Lifecycle
pub mod PathLoop
pub mod Bucket
pub mod PathCr
pub mod Policy
pub mod Instance
pub mod User
pub mod Events
pub mod Composed
pub mod Main
pub mod Tests
