-- ===== src/Main/Starts.antt =====
-- `main`: what it asks of its libraries, and how it ends.
use mathlib.Core.List as L
use mathlib.Core.List.{append_assoc, append-nil}
use mathlib.Core.Option
use s3_operator.Prelude.{
  String, ◌==◌, ◌≡◌, inl, inr, refl, sym, ◌∙◌, ap, Option, none, some, List, [], ◌∷◌, Bool-cases,
}
use s3_operator.Effect.{Result, Eff, attempt}
use s3_operator.Effect.Returns.{Returns, Returns-handle, Returns-bind, Returns-weaken}
use s3_operator.Cluster.{Reconciler}
use s3_operator.Main.Interface.{Flag, Values, TlsOpt, Builder, Manager, System}
use s3_operator.Main.{
  Options, options_of, Ending, finished, exited, exit_1, disable_http2, with_watcher, tls_opts,
  metrics_options, manager_options, watch, reconciler_of, set_up, set_up_controllers, add_watcher,
  start, operate, main, flags,
}
use s3_operator.Main.Setup.{
  s3_instance_builder, bucket_builder, path_builder, policy_builder, s3_user_builder,
}
use s3_operator.Main.History.{
  Files, Step, watches, sets_up, adds, healthz, readyz, starts, fails, speaks_of, manages_of,
  files_in, if_given, webhook_files, metrics_files, spoken, managed, managing, expected, Records,
  Went, IsManager, IsRecorded,
}

module _ {W : Type 0} (log : W → List Step) where
  Went-step :
      (s : Step) (xs : List Step) (w v : W) (e : Ending) (u : W)
      → log v ≡ L.◌++◌ (log w) (s ∷ [])
      → Went log xs v e u
      → Went log (s ∷ xs) w e u
  Went-step s xs w v finished u h g = g ∙ rw h (append_assoc (log w) (s ∷ []) xs)
  Went-step s xs w v (exited c) u h (one, (ys, (t, (zs, (split, g))))) = (
    one,
    (
      s ∷ ys,
      (
        t,
        (
          zs,
          (ap (◌∷◌ s) split, g ∙ rw h (append_assoc (log w) (s ∷ []) (L.◌++◌ ys (fails t ∷ [])))),
        ),
      ),
    ),
  )

  Went-same :
      (xs : List Step) (w v : W) (e : Ending) (u : W)
      → log v ≡ log w
      → Went log xs v e u
      → Went log xs w e u
  Went-same xs w v finished u h g = rw (sym h) g
  Went-same xs w v (exited c) u h (one, (ys, (t, (zs, (split, g))))) =
      (one, (ys, (t, (zs, (split, rw (sym h) g)))))

  -- One call, and what follows it.
  attempt-Went :
      {A : Type 0} (P : A → Type 0) (s : Step) (xs : List Step) (m : Eff W (Result A))
      (k : A → Eff W Ending) (w : W)
      → Returns (Records log s P w) m w
      → ((a : A) (v : W) → P a → Returns (Went log xs v) (k a) v)
      → Returns (Went log (s ∷ xs) w) (attempt m exit_1 k) w
  attempt-Went P s xs m k w h goes =
      Returns-handle (Records log s P w) m exit_1 k w h
        (λ e v failed. record { at = (refl, ([], (s, (xs, (refl, failed))))) })
        (λ a v (p, g). Returns-weaken (k a) v (λ e u. Went-step s xs w v e u g) (goes a v p))

module _ {W C : Type 0} {files_of : C → Files} {log : W → List Step} {mgr : Manager W C}
    (mgr-IsManager : IsManager files_of log mgr) where
  add_watcher-Went :
      (watcher : Option C) (xs : List Step) (rest : Eff W Ending) (w : W)
      → ((v : W) → Returns (Went log xs v) rest v)
      → Returns
          (Went log (L.◌++◌ (if_given adds (Option.map files_of watcher)) xs) w)
          (add_watcher mgr watcher rest)
          w
  unfolding add_watcher
  add_watcher-Went none xs rest w h = h w
  add_watcher-Went (some c) xs rest w h =
      attempt-Went log (λ _. Unit) _ xs _ _ w (mgr-IsManager.add_lem c w) λ _ v _. h v

  start-Went : (w : W) → Returns (Went log (healthz ∷ readyz ∷ starts ∷ []) w) (start mgr) w
  unfolding start
  start-Went w =
      attempt-Went log (λ _. Unit) _ _ _ _ w (mgr-IsManager.add_healthz_check_lem "healthz" w)
        λ _ v _.
          attempt-Went log (λ _. Unit) _ _ _ _ v (mgr-IsManager.add_readyz_check_lem "readyz" v)
            λ _ u _.
              attempt-Went log (λ _. Unit) _ [] _ _ u (mgr-IsManager.start_lem u)
                λ _ t _. record { at = sym (append-nil (log t)) }

  abbrev set_up_step : Reconciler W → Builder → Step
  set_up_step r c = sets_up c r.reconcile_period r.override_existing_secret r.read_existing_secret

  set_up-Went :
      (r : Reconciler W) (c : Builder) (xs : List Step) (rest : Eff W Ending) (w : W)
      → ((v : W) → Returns (Went log xs v) rest v)
      → Returns (Went log (set_up_step r c ∷ xs) w) (set_up mgr r c rest) w
  set_up-Went r c xs rest w h =
      attempt-Went log (λ _. Unit) _ xs _ _ w (mgr-IsManager.complete_lem c r w) λ _ v _. h v

  set_up_controllers-Went :
      (r : Reconciler W) (xs : List Step) (rest : Eff W Ending) (w : W)
      → ((v : W) → Returns (Went log xs v) rest v)
      → Returns
          (Went log
            (set_up_step r s3_instance_builder
              ∷ set_up_step r bucket_builder
              ∷ set_up_step r path_builder
              ∷ set_up_step r policy_builder
              ∷ set_up_step r s3_user_builder
              ∷ xs)
            w)
          (set_up_controllers mgr r rest)
          w
  unfolding set_up_controllers
  set_up_controllers-Went r xs rest w h = set_up-Went r s3_instance_builder _ _ w λ a.
      set_up-Went r bucket_builder _ _ a λ b.
        set_up-Went r path_builder _ _ b
          λ c. set_up-Went r policy_builder _ _ c λ d. set_up-Went r s3_user_builder xs rest d h

module _ {C : Type 0} (files_of : C → Files) (protocols : List String) where
  -- The options of a server, of whose files there may be a watcher.
  abbrev served : List (TlsOpt C) → Option C → List (TlsOpt C)
  served tls none = tls
  served tls (some c) = L.◌++◌ tls (with_watcher c ∷ [])

  speaks_lem :
      (join : String → String → String) (o : Options) (watcher : Option C)
      → speaks_of files_of protocols (served (tls_opts o) watcher)
        ≡ spoken join protocols o (Option.map files_of watcher)
  unfolding with_watcher tls_opts disable_http2
  speaks_lem join o none = elim (Bool-cases o.enable_http2) [
    | inl e ↦ rw e refl
    | inr e ↦ rw e refl
  ]
  speaks_lem join o (some c) = elim (Bool-cases o.enable_http2) [
    | inl e ↦ rw e refl
    | inr e ↦ rw e refl
  ]

  managed_lem :
      (join : String → String → String) (o : Options) (webhook metrics : Option C)
      → Option.map files_of webhook ≡ webhook_files join protocols o
      → Option.map files_of metrics ≡ metrics_files join protocols o
      → manages_of files_of protocols
          (manager_options o (served (tls_opts o) webhook) (served (tls_opts o) metrics))
        ≡ managed join protocols o
  unfolding manager_options metrics_options
  managed_lem join o webhook metrics hw hm =
      rw (speaks_lem join o webhook, speaks_lem join o metrics, hw, hm) refl

module _ {W C P : Type 0} {arguments : List Flag → Values} {files_of : C → Files}
    {protocols : List String} {log : W → List Step} {system : System W C P}
    (system-IsRecorded : IsRecorded arguments files_of protocols log system) where
  watch-Went :
      (dir cert key : String) (tls : List (TlsOpt C)) (xs : List Step)
      (rest : List (TlsOpt C) → Option C → Eff W Ending) (w : W)
      → ((watcher : Option C) (v : W)
          → Option.map files_of watcher ≡ files_in system.join_path dir cert key
          → Returns (Went log xs v) (rest (served files_of protocols tls watcher) watcher) v)
      → Returns
          (Went log (L.◌++◌ (if_given watches (files_in system.join_path dir cert key)) xs) w)
          (watch system dir cert key tls rest)
          w
  unfolding watch
  watch-Went dir cert key tls xs rest w h = elim (Bool-cases (dir == "")) [
    | inl e ↦ rw e (h none w (rw e refl))
    | inr e ↦ rw e (
        attempt-Went log _ _ xs _ _ w (system-IsRecorded.new_cert_watcher_lem _ _ w)
          λ c v same. h (some c) v (rw e (ap some same)))
  ]

  manage-Went :
      (o : Options) (webhook metrics : Option C) (w : W)
      → Option.map files_of webhook ≡ webhook_files system.join_path protocols o
      → Option.map files_of metrics ≡ metrics_files system.join_path protocols o
      → Returns
          (Went log (managing system.join_path protocols o) w)
          (attempt
            (system.new_manager (
              manager_options o
                (served files_of protocols (tls_opts o) webhook)
                (served files_of protocols (tls_opts o) metrics)))
            exit_1
            (λ mgr.
              set_up_controllers mgr
                (reconciler_of system mgr o)
                (add_watcher mgr metrics (add_watcher mgr webhook (start mgr)))))
          w
  unfolding reconciler_of bucket_builder path_builder policy_builder s3_instance_builder
      s3_user_builder
  manage-Went o webhook metrics w hw hm =
      rw
        (
          sym (managed_lem files_of protocols system.join_path o webhook metrics hw hm),
          sym hw,
          sym hm,
        )
        (attempt-Went log _ _ _ _ _ w (system-IsRecorded.new_manager_lem _ w) λ mgr v mgr-IsManager.
          set_up_controllers-Went mgr-IsManager _ _ _ v λ a.
            add_watcher-Went mgr-IsManager metrics _ _ a
              λ b. add_watcher-Went mgr-IsManager webhook _ _ b (start-Went mgr-IsManager))

  operate-Went :
      (o : Options) (w : W)
      → Returns (Went log (expected system.join_path protocols o) w) (operate system o) w
  unfolding operate
  operate-Went o w = watch-Went o.webhook_cert_path _ _ _ _ _ w λ webhook v hw.
      watch-Went o.metrics_cert_path _ _ _ _ _ v
        λ metrics u hm. manage-Went o webhook metrics u hw hm

  -- A start with arguments that parse, on libraries that return, returns. If no call failed, what
  -- it has asked is, in order: to watch the files of the webhook's and of the metrics server's
  -- certificates, each if its directory is given; to make a manager, whose servers speak HTTP/1.1
  -- alone unless HTTP/2 is enabled and serve the watched files; to set up the five controllers,
  -- each under its name, with its filter of events and ten workers, with the period and the
  -- switches of the flags; to add the watchers there are; to add both checks; and to start. If a
  -- call failed, it exits with 1: the calls before it have gone through, and nothing is asked
  -- behind it.
  pub main-Went :
      (w : W)
      → Returns
          (Went log (expected system.join_path protocols (options_of (arguments flags))) w)
          (main system)
          w
  unfolding main
  main-Went w =
      Returns-bind (system.parse flags) _ w (system-IsRecorded.parse_lem flags w)
        λ values v (given, same). rw (sym given) (
          Returns-weaken _ v (λ e u. Went-same log _ w v e u same)
            (operate-Went (options_of values) v))
