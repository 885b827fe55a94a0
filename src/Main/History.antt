-- ===== src/Main/History.antt =====
-- The history of a run of `main`: what it has asked of its libraries, in order.
use mathlib.Core.Option
use mathlib.Core.List as L
use s3_operator.Prelude.{
  ℕ, String, ◌==◌, Bool, true, false, ◌≡◌, Option, none, some, List, [], ◌∷◌, if◌then◌else◌,
}
use s3_operator.Effect.{Result, ok, err, returned}
use s3_operator.Effect.Returns.{Returns}
use s3_operator.Cluster.{Reconciler}
use s3_operator.Events.{resource_filter, user_filter}
use s3_operator.Main.Interface.{
  Flag, Values, TlsConfig, TlsOpt, ManagerOptions, Kind, Builder, s3_instance, bucket, path, policy,
  s3_user, Manager, System,
}
use s3_operator.Main.{Options, Ending, finished, exited}

-- Two files, of a certificate and of its key.
pub record Files : Type 0 where
  pub certificate : String
  pub key : String

-- How a server speaks TLS: its protocols, and the files of its certificates if they are watched.
pub record Speaks : Type 0 where
  pub protocols : List String
  pub files : Option Files

-- What a manager is made with.
pub record Manages : Type 0 where
  pub metrics_address : String
  pub metrics_secure : Bool
  pub metrics_authenticated : Bool
  pub metrics : Speaks
  pub webhook : Speaks
  pub probe_address : String
  pub elects : Bool

-- What is asked of the libraries, and goes through or fails.
pub data Step : Type 0 where
  watches : Files → Step
  manages : Manages → Step
  sets_up : Builder → ℕ → Bool → Bool → Step
  adds : Files → Step
  healthz : Step
  readyz : Step
  starts : Step
  fails : Step → Step

-- A server applies its options in order.
abbrev pub apply_all : {C : Type 0} → List (TlsOpt C) → TlsConfig C → TlsConfig C
apply_all [] c = c
apply_all (o ∷ os) c = apply_all os (o c)

module _ {C : Type 0} (files_of : C → Files) (protocols : List String) where
  -- From a configuration with the server's own protocols.
  abbrev pub speaks_of : List (TlsOpt C) → Speaks
  speaks_of os =
      let c = apply_all os (record { next_protos = protocols; get_certificate = none }) in
      record { protocols = c.next_protos; files = Option.map files_of c.get_certificate }

  abbrev pub manages_of : ManagerOptions C → Manages
  manages_of o = record {
    metrics_address = o.metrics.bind_address;
    metrics_secure = o.metrics.secure_serving;
    metrics_authenticated = o.metrics.authenticated;
    metrics = speaks_of o.metrics.tls_opts;
    webhook = speaks_of o.webhook_tls_opts;
    probe_address = o.health_probe_bind_address;
    elects = o.leader_election;
  }

-- Ten workers for a kind, woken by the filter of all kinds but users.
abbrev pub on_generation : Kind → String → Builder
on_generation kind name = record {
  kind = kind;
  named = name;
  owns_secrets = false;
  event_filter = λ e. returned (resource_filter e);
  max_concurrent_reconciles = 10;
}

-- Ten workers for users, woken by their secrets as well.
abbrev pub on_users : Builder
on_users = record {
  kind = s3_user;
  named = "s3User";
  owns_secrets = true;
  event_filter = user_filter;
  max_concurrent_reconciles = 10;
}

-- The files in a directory, if there is one.
abbrev pub files_in : (String → String → String) → String → String → String → Option Files
files_in join dir cert key =
    if dir == "" then none else some (record { certificate = join dir cert; key = join dir key })

abbrev pub if_given : (Files → Step) → Option Files → List Step
if_given step none = []
if_given step (some f) = step f ∷ []

module _ (join : String → String → String) (protocols : List String) (o : Options) where
  abbrev pub webhook_files : Option Files
  webhook_files = files_in join o.webhook_cert_path o.webhook_cert_name o.webhook_cert_key

  abbrev pub metrics_files : Option Files
  metrics_files = files_in join o.metrics_cert_path o.metrics_cert_name o.metrics_cert_key

  -- HTTP/1.1 alone, unless HTTP/2 is enabled.
  abbrev pub spoken : Option Files → Speaks
  spoken f = record { protocols = if o.enable_http2 then protocols else "http/1.1" ∷ []; files = f }

  abbrev pub managed : Manages
  managed = record {
    metrics_address = o.metrics_addr;
    metrics_secure = o.secure_metrics;
    metrics_authenticated = o.secure_metrics;
    metrics = spoken metrics_files;
    webhook = spoken webhook_files;
    probe_address = o.probe_addr;
    elects = o.enable_leader_election;
  }

  abbrev pub controlled : Builder → Step
  controlled c = sets_up c o.reconcile_period o.override_existing_secret o.read_existing_secret

  -- A manager has the five controllers, the watchers that there are, and both checks, before it
  -- starts.
  abbrev pub managing : List Step
  managing =
      manages managed
      ∷ controlled (on_generation s3_instance "s3instance")
      ∷ controlled (on_generation bucket "bucket")
      ∷ controlled (on_generation path "path")
      ∷ controlled (on_generation policy "policy")
      ∷ controlled on_users
      ∷ L.◌++◌ (if_given adds metrics_files)
          (L.◌++◌ (if_given adds webhook_files) (healthz ∷ readyz ∷ starts ∷ []))

  abbrev pub expected : List Step
  expected =
      L.◌++◌ (if_given watches webhook_files) (L.◌++◌ (if_given watches metrics_files) managing)

module _ {W : Type 0} (log : W → List Step) where
  -- A call is a step if it goes through, and the failure of that step if not.
  abbrev pub Records : {A : Type 0} → Step → (A → Type 0) → W → Result A → W → Type 0
  Records s P w (ok a) v = P a × (log v ≡ L.◌++◌ (log w) (s ∷ []))
  Records s P w (err e) v = log v ≡ L.◌++◌ (log w) (fails s ∷ [])

  -- All the steps and a normal end; or exit 1 behind the failure of one of them, which is the last
  -- that is asked, while those before it have gone through.
  abbrev pub Went : List Step → W → Ending → W → Type 0
  Went xs w finished v = log v ≡ L.◌++◌ (log w) xs
  Went xs w (exited c) v =
      (c ≡ 1)
      × ((ys : List Step) × ((s : Step) × ((zs : List Step) × ((xs ≡ L.◌++◌ ys (s ∷ zs))
                × (log v ≡ L.◌++◌ (log w) (L.◌++◌ ys (fails s ∷ [])))))))

-- What the libraries record, and that their calls return.
pub record IsManager {W C : Type 0} (files_of : C → Files) (log : W → List Step) (m : Manager W C)
    : Type 0 where
  pub complete_lem :
      (b : Builder) (r : Reconciler W) (w : W)
      → Returns
          (Records log
            (sets_up b r.reconcile_period r.override_existing_secret r.read_existing_secret)
            (λ _. Unit)
            w)
          (m.complete b r)
          w
  pub add_lem :
      (c : C) (w : W) → Returns (Records log (adds (files_of c)) (λ _. Unit) w) (m.add c) w
  pub add_healthz_check_lem :
      (n : String) (w : W) → Returns (Records log healthz (λ _. Unit) w) (m.add_healthz_check n) w
  pub add_readyz_check_lem :
      (n : String) (w : W) → Returns (Records log readyz (λ _. Unit) w) (m.add_readyz_check n) w
  pub start_lem : (w : W) → Returns (Records log starts (λ _. Unit) w) m.start w

-- The arguments parse, to the values that they give the flags.
pub record IsRecorded {W C P : Type 0} (arguments : List Flag → Values) (files_of : C → Files)
    (protocols : List String) (log : W → List Step) (s : System W C P) : Type 0 where
  pub parse_lem :
      (fs : List Flag) (w : W)
      → Returns (λ v w'. (v ≡ arguments fs) × (log w' ≡ log w)) (s.parse fs) w
  pub new_cert_watcher_lem :
      (cert key : String) (w : W)
      → Returns
          (Records log
            (watches (record { certificate = cert; key = key }))
            (λ c. files_of c ≡ record { certificate = cert; key = key })
            w)
          (s.new_cert_watcher cert key)
          w
  pub new_manager_lem :
      (o : ManagerOptions C) (w : W)
      → Returns
          (Records log (manages (manages_of files_of protocols o)) (IsManager files_of log) w)
          (s.new_manager o)
          w
