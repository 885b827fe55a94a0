-- ===== src/Main.antt =====
-- cmd/main.go: the flags, the servers' TLS options, the manager, and the five controllers, set up
-- with the operator's own factory. Logging, and the flags of the logger, are left out.
pub mod Interface
pub mod Setup
pub mod History
pub mod Starts
use mathlib.Core.List as L
use s3_operator.Prelude.{
  ℕ, String, ◌==◌, Bool, true, false, not, Option, none, some, List, [], ◌∷◌, if◌then◌else◌,
}
use s3_operator.Effect.{Error, Result, Eff, pure, ◌>>=◌, attempt}
use s3_operator.Cluster.{Reconciler}
use s3_operator.S3.Factory.{new_s3_factory}
use s3_operator.Main.Interface.{
  Flag, string_var, bool_var, duration_var, Values, TlsConfig, TlsOpt, MetricsOptions,
  ManagerOptions, Builder, Manager, System,
}
use s3_operator.Main.Setup.{
  s3_instance_builder, bucket_builder, path_builder, policy_builder, s3_user_builder,
  setup_with_manager,
}

-- The flags of the operator, with their names and defaults.
abbrev pub flags : List Flag
flags =
    string_var "metrics-bind-address" "0"
    ∷ string_var "health-probe-bind-address" ":8081"
    ∷ bool_var "leader-elect" false
    ∷ bool_var "metrics-secure" true
    ∷ string_var "webhook-cert-path" ""
    ∷ string_var "webhook-cert-name" "tls.crt"
    ∷ string_var "webhook-cert-key" "tls.key"
    ∷ string_var "metrics-cert-path" ""
    ∷ string_var "metrics-cert-name" "tls.crt"
    ∷ string_var "metrics-cert-key" "tls.key"
    ∷ bool_var "enable-http2" false
    ∷ duration_var "reconcile-period" 0
    ∷ bool_var "override-existing-secret" false
    ∷ bool_var "read-existing-secret" false
    ∷ []

-- The variables of `main` that the flags fill.
pub record Options : Type 0 where
  pub metrics_addr : String
  pub metrics_cert_path : String
  pub metrics_cert_name : String
  pub metrics_cert_key : String
  pub webhook_cert_path : String
  pub webhook_cert_name : String
  pub webhook_cert_key : String
  pub enable_leader_election : Bool
  pub probe_addr : String
  pub secure_metrics : Bool
  pub enable_http2 : Bool
  pub reconcile_period : ℕ
  pub override_existing_secret : Bool
  pub read_existing_secret : Bool

unfoldable pub options_of : Values → Options
options_of v = record {
  metrics_addr = v.string_value "metrics-bind-address";
  metrics_cert_path = v.string_value "metrics-cert-path";
  metrics_cert_name = v.string_value "metrics-cert-name";
  metrics_cert_key = v.string_value "metrics-cert-key";
  webhook_cert_path = v.string_value "webhook-cert-path";
  webhook_cert_name = v.string_value "webhook-cert-name";
  webhook_cert_key = v.string_value "webhook-cert-key";
  enable_leader_election = v.bool_value "leader-elect";
  probe_addr = v.string_value "health-probe-bind-address";
  secure_metrics = v.bool_value "metrics-secure";
  enable_http2 = v.bool_value "enable-http2";
  reconcile_period = v.duration_value "reconcile-period";
  override_existing_secret = v.bool_value "override-existing-secret";
  read_existing_secret = v.bool_value "read-existing-secret";
}

-- How `main` ends: it returns, or it leaves the process with a code.
pub data Ending : Type 0 where
  finished : Ending
  exited : ℕ → Ending

-- `os.Exit(1)`
abbrev pub exit_1 : {W : Type 0} → Error → Eff W Ending
exit_1 e = pure (exited 1)

module _ {C : Type 0} where
  -- `disableHTTP2`
  unfoldable pub disable_http2 : TlsOpt C
  disable_http2 c = record c { next_protos = "http/1.1" ∷ [] }

  -- The option that takes the certificates of a watcher.
  unfoldable pub with_watcher : C → TlsOpt C
  with_watcher watcher c = record c { get_certificate = some watcher }

  unfoldable pub tls_opts : Options → List (TlsOpt C)
  tls_opts o = if not o.enable_http2 then disable_http2 ∷ [] else []

  unfoldable pub metrics_options : Options → List (TlsOpt C) → MetricsOptions C
  metrics_options o tls = record {
    bind_address = o.metrics_addr;
    secure_serving = o.secure_metrics;
    tls_opts = tls;
    authenticated = o.secure_metrics;
  }

  unfoldable pub manager_options : Options → List (TlsOpt C) → List (TlsOpt C) → ManagerOptions C
  manager_options o webhook_tls metrics_tls = record {
    metrics = metrics_options o metrics_tls;
    webhook_tls_opts = webhook_tls;
    health_probe_bind_address = o.probe_addr;
    leader_election = o.enable_leader_election;
    leader_election_id = "1402b7b1.onyxia.sh";
  }

module _ {W C : Type 0} where
  abbrev pub set_up : Manager W C → Reconciler W → Builder → Eff W Ending → Eff W Ending
  set_up mgr r c rest = attempt (setup_with_manager c r mgr) exit_1 (λ _. rest)

  -- The five controllers.
  unfoldable pub set_up_controllers : Manager W C → Reconciler W → Eff W Ending → Eff W Ending
  set_up_controllers mgr r rest = set_up mgr r s3_instance_builder (
      set_up mgr r bucket_builder (
        set_up mgr r path_builder
          (set_up mgr r policy_builder (set_up mgr r s3_user_builder rest))))

  unfoldable pub add_watcher : Manager W C → Option C → Eff W Ending → Eff W Ending
  add_watcher mgr none rest = rest
  add_watcher mgr (some watcher) rest = attempt (mgr.add watcher) exit_1 (λ _. rest)

  -- The health checks, and the start, which returns when the manager is stopped.
  unfoldable pub start : Manager W C → Eff W Ending
  start mgr = attempt (mgr.add_healthz_check "healthz") exit_1 λ _.
      attempt (mgr.add_readyz_check "readyz") exit_1
        λ _. attempt mgr.start exit_1 λ _. pure finished

module _ {W C P : Type 0} (run : System W C P) where
  -- A watcher of the certificates, if their directory is given: for the webhook and for the
  -- metrics.
  unfoldable pub watch :
      String
      → String
      → String
      → List (TlsOpt C)
      → (List (TlsOpt C) → Option C → Eff W Ending)
      → Eff W Ending
  watch cert_path cert_name cert_key tls rest =
      if not (cert_path == "")
      then attempt
          (run.new_cert_watcher (run.join_path cert_path cert_name)
            (run.join_path cert_path cert_key))
          exit_1 (λ watcher. rest (L.◌++◌ tls (with_watcher watcher ∷ [])) (some watcher))
      else rest tls none

  -- The fields of the reconcilers.
  unfoldable pub reconciler_of : Manager W C → Options → Reconciler W
  reconciler_of mgr o = record {
    buckets = mgr.buckets;
    paths = mgr.paths;
    policies = mgr.policies;
    s3_users = mgr.s3_users;
    s3_instances = mgr.s3_instances;
    secrets = mgr.secrets;
    s3_factory = new_s3_factory run.sdk;
    machinery = run.machinery;
    formatting = run.formatting;
    rand_int = run.rand_int;
    reconcile_period = o.reconcile_period;
    override_existing_secret = o.override_existing_secret;
    read_existing_secret = o.read_existing_secret;
  }

  -- What follows the flags.
  unfoldable pub operate : Options → Eff W Ending
  operate o =
      watch o.webhook_cert_path o.webhook_cert_name o.webhook_cert_key (tls_opts o)
        λ webhook_tls webhook_watcher.
          watch o.metrics_cert_path o.metrics_cert_name o.metrics_cert_key (tls_opts o)
            λ metrics_tls metrics_watcher.
              attempt (run.new_manager (manager_options o webhook_tls metrics_tls)) exit_1 λ mgr.
                set_up_controllers mgr (reconciler_of mgr o)
                  (add_watcher mgr metrics_watcher (add_watcher mgr webhook_watcher (start mgr)))

  unfoldable pub main : Eff W Ending
  main = run.parse flags >>= λ values. operate (options_of values)
