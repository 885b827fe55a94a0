-- ===== src/Composed.antt =====
-- cmd/main.go, internal/controller, internal/s3: the controllers with the operator's own factory
-- and its client of MinIO, on a MinIO server.
use s3_operator.Prelude.{String, Bool, List, true, ◌≡◌, none, ℤ, IsInt64}
use s3_operator.Effect.{returned, Outcome}
use s3_operator.Effect.Post.{OnOk, Post}
use s3_operator.Effect.Leaves.{Leaves}
use s3_operator.Api.{NamespacedName, Bucket, S3User, Secret}
use s3_operator.S3.Backend.{Backend}
use s3_operator.S3.Minio.Sdk.{Libraries}
use s3_operator.S3.Minio.Server.{ServerState, backend_of, IsSdk}
use s3_operator.S3.Factory.Connects.{reaches, wired, wired-IsConnected, generate_s3_client-keeps}
use s3_operator.S3.{S3Config}
use s3_operator.S3.Minio.Clients.{Endpoint}
use s3_operator.S3.Factory.{located, new_s3_factory}
use s3_operator.Helpers.Client.{config_of}
use s3_operator.Helpers.Client.Gives.{Permits}
use s3_operator.Cluster.{Reconciler}
use s3_operator.Cluster.Laws.{IsConnected, IsReporting, IsStoring}
use s3_operator.Bucket
use s3_operator.Bucket.Target.{IsTarget}
use s3_operator.Bucket.Converges
use s3_operator.Bucket.Converges.{Realizes, quota_aimed_at}
use s3_operator.User.Update
use s3_operator.User.Update.Provides as Provides
use s3_operator.User.Create.Provides.{HasUser}

-- What the operator relies on around its own code: the libraries reach one MinIO server at the
-- endpoint of each S3 instance that is read, and the API server's calls leave that server alone.
pub record Surroundings {W P : Type 0} (server : W → ServerState) (canonical : String → String)
    (endpoint : String) (sdk : Libraries W P) (r : Reconciler W) : Type 0 where
  pub libraries : IsSdk server canonical endpoint sdk
  pub instances_leave :
      (k : NamespacedName) → Leaves (λ w. backend_of canonical (server w)) (r.s3_instances.get k)
  pub instances_reach :
      (k : NamespacedName) (w : W)
      → Post
          (OnOk (λ i _. reaches sdk endpoint i.spec.s3_provider i.spec.url ≡ true))
          (r.s3_instances.get k)
          w
  pub secrets_leave :
      (k : NamespacedName) → Leaves (λ w. backend_of canonical (server w)) (r.secrets.get k)

module _ {W P : Type 0} {server : W → ServerState} {canonical : String → String} {endpoint : String}
    {sdk : Libraries W P} {r : Reconciler W}
    (s : Surroundings server canonical endpoint sdk r) where
  abbrev pub view : W → Backend
  view w = backend_of canonical (server w)

  abbrev pub operator : Reconciler W
  operator = wired sdk r

  pub operator-IsConnected : IsConnected view operator
  operator-IsConnected =
      wired-IsConnected server canonical endpoint sdk s.libraries r s.instances_leave
        s.instances_reach s.secrets_leave

  -- The switches of the instances reach the clients.
  pub operator-Permits :
      (switch : S3Config → Bool) (enabled : Bool)
      → ((e : Endpoint) (g : S3Config) → switch (located e g) ≡ switch g)
      → ((k : NamespacedName) (w : W)
          → Post
              (OnOk (λ i _.
                (secret : Secret) (certificates : List String)
                → switch (config_of i secret certificates) ≡ enabled))
              (r.s3_instances.get k)
              w)
      → Permits switch enabled operator
  unfolding new_s3_factory
  operator-Permits switch enabled apart instances = record {
    instances_lem = instances;
    factory_lem = generate_s3_client-keeps sdk switch apart;
  }

  -- On one MinIO server that the operator's libraries reach and that no call of the API server
  -- changes, with the operator's own factory and clients: if the reconciliation of a bucket whose
  -- quotas convert to int64 values returns no error, the server has the bucket, with the object
  -- `.keep` of every path of the spec. Its quota is the override, or the default if the override is
  -- zero, if the bucket was there before, and the default if this run made it.
  pub bucket_on_minio-Realizes :
      IsReporting view r.buckets
      → (b : Bucket) (q : ℤ) (w v : W) (a : Outcome) → IsInt64 b.spec.quota.default.as_int64.0
      → IsInt64 q
      → b.spec.quota.default.as_int64.1 ≡ true
      → IsTarget b.spec.quota q
      → Bucket.handle_reconciliation operator b w ≡ (returned a, v)
      → a.error ≡ none
      → Realizes b.spec (quota_aimed_at b q (view w)) (view v)
  bucket_on_minio-Realizes reporting b q w v a =
      Converges.handle_reconciliation-Realizes operator-IsConnected reporting b q w v a

  -- On one MinIO server that the operator's libraries reach and that no call of the API server
  -- changes, with the operator's own factory and clients: if the reconciliation of a user returns
  -- no error, the server has the user, with every policy of the spec, whether it was there before
  -- or not.
  pub user_on_minio-HasUser :
      IsReporting view r.s3_users
      → IsStoring view r.secrets
      → (user : S3User) (w v : W) (a : Outcome)
      → Update.handle_reconciliation operator user w ≡ (returned a, v)
      → a.error ≡ none
      → HasUser user (view v)
  user_on_minio-HasUser reporting storing user w v a =
      Provides.handle_reconciliation-HasUser operator-IsConnected reporting storing user w v a
