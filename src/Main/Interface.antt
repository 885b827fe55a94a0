-- ===== src/Main/Interface.antt =====
-- What cmd/main.go takes from its libraries: the package flag, crypto/tls, and controller-runtime
-- with its certificate watchers, servers and manager.
use s3_operator.Prelude.{ℕ, String, Bool, Option, List}
use s3_operator.Effect.{Result, Exit, Eff}
use s3_operator.Events.{Event}
use s3_operator.Api.{BucketSpec, PathSpec, PolicySpec, S3UserSpec, S3InstanceSpec}
use s3_operator.Cluster.{ResourceClient, SecretClient, Machinery, Formatting, RandInt, Reconciler}
use s3_operator.S3.Minio.Sdk.{Libraries}

-- `flag.StringVar`, `flag.BoolVar` and `flag.DurationVar`: a name and a default.
pub data Flag : Type 0 where
  string_var : String → String → Flag
  bool_var : String → Bool → Flag
  duration_var : String → ℕ → Flag

-- The values behind `flag.Parse`, by the names of the flags.
pub record Values : Type 0 where
  pub string_value : String → String
  pub bool_value : String → Bool
  pub duration_value : String → ℕ

-- The fields of tls.Config that the code sets.
pub record TlsConfig (C : Type 0) : Type 0 where
  pub next_protos : List String
  pub get_certificate : Option C

-- `func(*tls.Config)`
abbrev pub TlsOpt : Type 0 → Type 0
TlsOpt C = TlsConfig C → TlsConfig C

-- metricsserver.Options; whether its FilterProvider is WithAuthenticationAndAuthorization.
pub record MetricsOptions (C : Type 0) : Type 0 where
  pub bind_address : String
  pub secure_serving : Bool
  pub tls_opts : List (TlsOpt C)
  pub authenticated : Bool

pub record ManagerOptions (C : Type 0) : Type 0 where
  pub metrics : MetricsOptions C
  pub webhook_tls_opts : List (TlsOpt C)
  pub health_probe_bind_address : String
  pub leader_election : Bool
  pub leader_election_id : String

-- The types of the objects that `For` names.
pub data Kind : Type 0 where
  s3_instance : Kind
  bucket : Kind
  path : Kind
  policy : Kind
  s3_user : Kind

-- What the code asks of the builder `NewControllerManagedBy`, before it completes it.
pub record Builder : Type 0 where
  pub kind : Kind
  pub named : String
  pub owns_secrets : Bool
  pub event_filter : Event → Exit Bool
  pub max_concurrent_reconciles : ℕ

-- A manager: `GetClient()` by its kinds, and what it is asked to do. `Complete` makes a controller
-- of a builder and a reconciler.
pub record Manager (W C : Type 0) : Type 0 where
  pub buckets : ResourceClient W BucketSpec
  pub paths : ResourceClient W PathSpec
  pub policies : ResourceClient W PolicySpec
  pub s3_users : ResourceClient W S3UserSpec
  pub s3_instances : ResourceClient W S3InstanceSpec
  pub secrets : SecretClient W
  pub complete : Builder → Reconciler W → Eff W (Result (Unit {0}))
  pub add : C → Eff W (Result (Unit {0}))
  pub add_healthz_check : String → Eff W (Result (Unit {0}))
  pub add_readyz_check : String → Eff W (Result (Unit {0}))
  pub start : Eff W (Result (Unit {0}))

-- `flag.Parse` ends the process itself if the arguments do not parse, and `ctrl.GetConfigOrDie`,
-- which is a part of `new_manager`, if there is no configuration.
pub record System (W C P : Type 0) : Type 0 where
  pub parse : List Flag → Eff W Values
  pub join_path : String → String → String
  pub new_cert_watcher : String → String → Eff W (Result C)
  pub new_manager : ManagerOptions C → Eff W (Result (Manager W C))
  pub sdk : Libraries W P
  pub machinery : Machinery
  pub formatting : Formatting
  pub rand_int : RandInt W
