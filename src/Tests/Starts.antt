-- ===== src/Tests/Starts.antt =====
-- Starts of the operator, with the certificates of the webhook alone, on libraries that keep a log.
use mathlib.Core.List as L
use s3_operator.Prelude.{
  ℕ, suc, zero, String, ◌++◌, ◌==◌, Bool, false, List, [], ◌∷◌, none, ◌≡◌, refl, if◌then◌else◌,
}
use s3_operator.Effect.{errorf, Result, ok, err, Eff, returned, pure, ◌>>=◌, attempt}
use s3_operator.Effect.Returns.{Returns}
use s3_operator.Cluster.{ResourceClient, Reconciler}
use s3_operator.Main.{
  flags, options_of, main, exited, operate, watch, set_up_controllers, tls_opts, manager_options,
  metrics_options, disable_http2, with_watcher, reconciler_of,
}
use s3_operator.Main.Interface.{
  Flag, string_var, bool_var, duration_var, Values, Builder, Manager, System,
}
use s3_operator.Main.Setup.{
  s3_instance_builder, bucket_builder, path_builder, policy_builder, s3_user_builder,
}
use s3_operator.Main.History.{
  Files, Step, watches, manages, sets_up, adds, healthz, readyz, starts, fails, manages_of,
  expected, Went, IsRecorded,
}
use s3_operator.Main.Starts.{main-Went}
use s3_operator.Tests.World.{not_found}
use s3_operator.Tests.Cluster.{machinery, formatting}

abbrev asked : {A : Type 0} → Step → A → Eff (List Step) (Result A)
asked step a log = (returned (ok a), L.◌++◌ log (step ∷ []))

abbrev refused : {A : Type 0} → Step → Eff (List Step) (Result A)
refused step log = (returned (err (errorf "no such kind")), L.◌++◌ log (fails step ∷ []))

abbrev nothing : {Spec : Type 0} → ResourceClient (List Step) Spec
nothing = record {
  get = λ k. pure (err not_found);
  update = λ o. pure (o, none);
  update_status = λ o. pure (o, none);
  list = pure (ok []);
}

-- What the set-up of a controller answers is the test's choice.
abbrev manager :
    (Builder → Reconciler (List Step) → Eff (List Step) (Result Unit)) → Manager (List Step) Files
manager complete = record {
  buckets = nothing;
  paths = nothing;
  policies = nothing;
  s3_users = nothing;
  s3_instances = nothing;
  secrets = record {
    get = λ k. pure (err not_found);
    list = λ n. pure (ok []);
    create = λ s. pure (ok tt);
    update = λ s. pure (ok tt);
    delete = λ s. pure (ok tt);
  };
  complete = complete;
  add = λ files. asked (adds files) tt;
  add_healthz_check = λ n. asked healthz tt;
  add_readyz_check = λ n. asked readyz tt;
  start = asked starts tt;
}

abbrev string_default : List Flag → String → String
string_default [] name = ""
string_default (string_var n s ∷ fs) name = if n == name then s else string_default fs name
string_default (bool_var n b ∷ fs) name = string_default fs name
string_default (duration_var n d ∷ fs) name = string_default fs name

abbrev bool_default : List Flag → String → Bool
bool_default [] name = false
bool_default (string_var n s ∷ fs) name = bool_default fs name
bool_default (bool_var n b ∷ fs) name = if n == name then b else bool_default fs name
bool_default (duration_var n d ∷ fs) name = bool_default fs name

-- `--webhook-cert-path=/certs --reconcile-period=60`
abbrev arguments : List Flag → Values
arguments fs = record {
  string_value = λ n. if n == "webhook-cert-path" then "/certs" else string_default fs n;
  bool_value = bool_default fs;
  duration_value = λ n. 60;
}

abbrev join : String → String → String
join dir file = dir ++ "/" ++ file

abbrev protocols : List String
protocols = "h2" ∷ "http/1.1" ∷ []

abbrev system_with :
    (Builder → Reconciler (List Step) → Eff (List Step) (Result Unit))
    → System (List Step) Files (List String)
system_with complete = record {
  parse = λ fs. pure (arguments fs);
  join_path = join;
  new_cert_watcher = λ cert key.
      asked (watches (record { certificate = cert; key = key }))
        (record { certificate = cert; key = key });
  new_manager = λ o. asked (manages (manages_of (λ f. f) protocols o)) (manager complete);
  sdk = record {
    new_client = λ endpoint o. err (errorf "unreachable");
    new_admin_client = λ endpoint o. err (errorf "unreachable");
    parse_url = λ url. err (errorf "no URL");
    system_cert_pool = none;
    new_cert_pool = [];
    append_certs_from_pem = λ pool c. c ∷ pool;
  };
  machinery = machinery;
  formatting = formatting;
  rand_int = λ m. pure (ok 0);
}

abbrev set_up_step : Builder → Reconciler (List Step) → Step
set_up_step c r = sets_up c r.reconcile_period r.override_existing_secret r.read_existing_secret

abbrev system : System (List Step) Files (List String)
system = system_with λ c r. asked (set_up_step c r) tt

system-IsRecorded : IsRecorded arguments (λ f. f) protocols (λ log. log) system
system-IsRecorded = record {
  parse_lem = λ fs w. record { at = (refl, refl) };
  new_cert_watcher_lem = λ cert key w. record { at = (refl, refl) };
  new_manager_lem = λ o w. record {
    at = (
      record {
        complete_lem = λ c r w. record { at = (tt, refl) };
        add_lem = λ c w. record { at = (tt, refl) };
        add_healthz_check_lem = λ n w. record { at = (tt, refl) };
        add_readyz_check_lem = λ n w. record { at = (tt, refl) };
        start_lem = λ w. record { at = (tt, refl) };
      },
      refl,
    );
  };
}

main-Went_example :
    Returns
      (Went (λ log. log) (expected join protocols (options_of (arguments flags))) [])
      (main system)
      []
main-Went_example = main-Went system-IsRecorded []

abbrev take : {A : Type 0} → ℕ → List A → List A
take zero xs = []
take (suc n) [] = []
take (suc n) (x ∷ xs) = x ∷ take n xs

-- The set-up of the third controller fails: four calls are on record, then that failure, and the
-- process ends.
abbrev set_up_two : Builder → Reconciler (List Step) → Eff (List Step) (Result Unit)
set_up_two builder r =
    if builder.named == "path"
    then refused (set_up_step builder r)
    else asked (set_up_step builder r) tt

failing_start : main (system_with set_up_two) [] ≡ (
  returned (exited 1),
  L.◌++◌
      (take 4 (expected join protocols (options_of (arguments flags))))
      (fails (sets_up path_builder 60 false false) ∷ []),
)
unfolding main operate watch set_up_controllers ◌>>=◌ attempt options_of tls_opts manager_options
    metrics_options disable_http2 bucket_builder path_builder policy_builder s3_instance_builder
    s3_user_builder with_watcher reconciler_of
failing_start = refl
