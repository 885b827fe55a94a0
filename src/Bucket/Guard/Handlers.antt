-- ===== src/Bucket/Guard/Handlers.antt =====
-- The handlers of a bucket that is in hand with its finalizer: the buckets stay guarded, whatever
-- call fails or panics on the way.
use s3_operator.Prelude.{
  String, Bool, true, false, ◌≡◌, ◌=ℤ◌, ℤ, inl, inr, Option, none, some, List, [], ◌∷◌, Bool-cases,
  if◌then◌else◌,
}
use s3_operator.Effect.{Error, Result, ok, Eff, pure, attempt, Outcome}
use s3_operator.Effect.Post.{OnOk, Post, Post-attempt}
use s3_operator.Effect.Keeps.{Keeps, Keeps-IsClosed, attempt-Keeps}
use s3_operator.Effect.Closed.{IsClosed, attempt-Closed}
use s3_operator.Api.{Bucket, S3Instance}
use s3_operator.S3.{S3Client}
use s3_operator.Cluster.{Reconciler}
use s3_operator.Helpers.Client.{get_s3_client_for_ressource}
use s3_operator.Helpers.Client.Closed.{for_ressource-Closed}
use s3_operator.Helpers.Client.Gives.{for_ressource-Gives}
use s3_operator.Helpers.Condition.Closed.{report-Closed}
use s3_operator.PathLoop.{create_missing, ensure_paths}
use s3_operator.Bucket.{
  bucket_finalizer, set_reconciled_condition, with_client, reset_quota, update_paths, update_quota,
  handle_update, create_paths, create_quota, handle_creation, handle_reconciliation,
  finalize_bucket,
}
use s3_operator.Bucket.Guard.{Site, IsOrderly, IsGuarding}
use s3_operator.Bucket.Guard.Calls.{
  Fixes-Keeps, either-Keeps, Held, write_bucket-Held, remove_bucket-Held,
}

module _ {W : Type 0} {site : W → Site} {r : Reconciler W} {I : S3Instance → Type 0}
    (k : IsGuarding site I r) (before : String → Bool) (b : Bucket)
    (has : r.machinery.contains_finalizer b.finalizers bucket_finalizer ≡ true) where
  abbrev pub Safe : W → Type 0
  Safe w = Held r.machinery before b (site w)

  abbrev safe_closed : IsClosed (Keeps Safe)
  safe_closed = Keeps-IsClosed Safe

  fixed : {A : Type 0} (m : Eff W A) → ((w : W) → site (m w).1 ≡ site w) → Keeps Safe A m
  fixed m h = Fixes-Keeps (Held r.machinery before b) m h

  pub reporting :
      (reason message : String) (e : Option Error)
      → Keeps Safe Outcome (set_reconciled_condition r b reason message e)
  unfolding set_reconciled_condition
  reporting reason message e =
      report-Closed safe_closed r r.buckets
        (λ o. fixed (r.buckets.update_status o) (k.update_status_lem o)) b reason message e

  asking :
      (ns ref : String) → Keeps Safe (Result (S3Client W)) (get_s3_client_for_ressource r ns ref)
  asking =
      for_ressource-Closed safe_closed r (λ n. fixed (r.s3_instances.get n) (k.get_instance_lem n))
        (λ n. fixed (r.secrets.get n) (k.get_secret_lem n))
        (λ p g. fixed (r.s3_factory.generate_s3_client p g) (k.generate_lem p g))

  pub given :
      (ns ref : String) (w : W)
      → Post (OnOk (λ c _. IsOrderly site c)) (get_s3_client_for_ressource r ns ref) w
  given =
      for_ressource-Gives r I (IsOrderly site) k.served_lem
        (λ i secret certificates w h. k.orderly_lem i secret certificates w h)

  with_client-Keeps :
      (rest : S3Client W → Eff W Outcome)
      → ((c : S3Client W) → IsOrderly site c → Keeps Safe Outcome (rest c))
      → Keeps Safe Outcome (with_client r b rest)
  unfolding with_client
  with_client-Keeps rest h w i =
      attempt-Keeps _ _ _ w (λ v j. j) (asking _ _ w i) (given _ _ w) (λ e v j. reporting _ _ _ v j)
        (λ c v j orderly. h c orderly v j)

  -- A call whose error is reported.
  trying :
      {A : Type 0} (m : Eff W (Result A)) (h : Error → Eff W Outcome) (rest : A → Eff W Outcome)
      → Keeps Safe (Result A) m
      → ((e : Error) → Keeps Safe Outcome (h e))
      → ((a : A) → Keeps Safe Outcome (rest a))
      → Keeps Safe Outcome (attempt m h rest)
  trying m h rest = attempt-Closed safe_closed m h rest

  create_missing-Keeps :
      (c : S3Client W) (p : String) (rest : Eff W Outcome) (x : Bool × Option Error)
      → IsOrderly site c
      → Keeps Safe Outcome rest
      → Keeps Safe Outcome (create_missing r r.buckets c b b.spec.name p rest x)
  unfolding set_reconciled_condition
  create_missing-Keeps c p rest (found, some e) orderly h = reporting _ _ _
  create_missing-Keeps c p rest (true, none) orderly h = h
  create_missing-Keeps c p rest (false, none) orderly h =
      trying _ _ _ (fixed (c.create_path b.spec.name p) (orderly.create_path_lem b.spec.name p))
        (λ e. reporting _ _ _) (λ _. h)

  ensure_paths-Keeps :
      (c : S3Client W) (ps : List String) (rest : Eff W Outcome)
      → IsOrderly site c
      → Keeps Safe Outcome rest
      → Keeps Safe Outcome (ensure_paths r r.buckets c b b.spec.name ps rest)
  unfolding ensure_paths
  ensure_paths-Keeps c [] rest orderly h = h
  ensure_paths-Keeps c (p ∷ ps) rest orderly h =
      safe_closed.bind_lem _ _
        (fixed (c.path_exists b.spec.name p) (orderly.path_exists_lem b.spec.name p))
        (λ x. create_missing-Keeps c p _ x orderly (ensure_paths-Keeps c ps rest orderly h))

  update_paths-Keeps : (c : S3Client W) → IsOrderly site c → Keeps Safe Outcome (update_paths r c b)
  unfolding update_paths
  update_paths-Keeps c orderly = ensure_paths-Keeps c b.spec.paths _ orderly (reporting _ _ _)

  update_quota-Keeps :
      (c : S3Client W) (e : ℤ) (q : Option ℤ)
      → IsOrderly site c
      → Keeps Safe Outcome (update_quota r c b e q)
  unfolding update_quota reset_quota
  update_quota-Keeps c e none orderly = reporting _ _ _
  update_quota-Keeps c e (some q) orderly = elim (Bool-cases (e =ℤ q)) [
    | inl same ↦ rw same (update_paths-Keeps c orderly)
    | inr other ↦ rw other (
        trying _ _ _ (fixed (c.set_quota b.spec.name q) (orderly.set_quota_lem b.spec.name q))
          (λ x. reporting _ _ _) (λ _. update_paths-Keeps c orderly))
  ]

  handle_update-Keeps : Keeps Safe Outcome (handle_update r b)
  unfolding handle_update
  handle_update-Keeps = with_client-Keeps _ λ c orderly.
      trying _ _ _ (fixed (c.get_quota b.spec.name) (orderly.get_quota_lem b.spec.name))
        (λ e. reporting _ _ _) (λ e. update_quota-Keeps c e _ orderly)

  create_paths-Keeps :
      (c : S3Client W) (ps : List String)
      → IsOrderly site c
      → Keeps Safe Outcome (create_paths r c b ps)
  unfolding create_paths
  create_paths-Keeps c [] orderly = reporting _ _ _
  create_paths-Keeps c (p ∷ ps) orderly =
      trying _ _ _ (fixed (c.create_path b.spec.name p) (orderly.create_path_lem b.spec.name p))
        (λ e. reporting _ _ _) (λ _. create_paths-Keeps c ps orderly)

  create_quota-Keeps : (c : S3Client W) → IsOrderly site c → Keeps Safe Outcome (create_quota r c b)
  unfolding create_quota
  create_quota-Keeps c orderly = elim (Bool-cases b.spec.quota.default.as_int64.1) [
    | inl e ↦ simp e (
        trying _ _ _
          (fixed (c.set_quota b.spec.name b.spec.quota.default.as_int64.0)
            (orderly.set_quota_lem b.spec.name _))
          (λ x. reporting _ _ _) (λ _. create_paths-Keeps c b.spec.paths orderly))
    | inr e ↦ simp e (reporting _ _ _)
  ]

  handle_creation-Keeps : Keeps Safe Outcome (handle_creation r b)
  unfolding handle_creation
  handle_creation-Keeps = with_client-Keeps _ λ c orderly.
      trying _ _ _
        (λ w i.
          either-Keeps (Held r.machinery before b) (site w) _ _
            (write_bucket-Held r.machinery before b (site w) has) i
            (orderly.create_bucket_lem b.spec.name w))
        (λ e. reporting _ _ _) (λ _. create_quota-Keeps c orderly)

  -- Creation and update.
  pub handle_reconciliation-Keeps : Keeps Safe Outcome (handle_reconciliation r b)
  unfolding handle_reconciliation
  handle_reconciliation-Keeps = with_client-Keeps _ λ c orderly.
      trying _ _ _ (fixed (c.bucket_exists b.spec.name) (orderly.bucket_exists_lem b.spec.name))
        (λ e. reporting _ _ _)
        λ found. elim (Bool-cases found) [
          | inl y ↦ rw y handle_update-Keeps
          | inr n ↦ rw n handle_creation-Keeps
        ]

  delete_if-Keeps :
      (c : S3Client W)
      → IsOrderly site c
      → Keeps Safe (Result (Unit {0})) (
          if c.get_config.bucket_deletion_enabled
          then c.delete_bucket b.spec.name
          else pure (ok tt))
  delete_if-Keeps c orderly w i = simp orderly.deletion_enabled (
      either-Keeps (Held r.machinery before b) (site w) _ _
        (remove_bucket-Held r.machinery before b (site w)) i
        (orderly.delete_bucket_lem b.spec.name w))

  -- `finalizeBucket`, however it ends.
  pub finalize_bucket-Keeps : Keeps Safe (Result (Unit {0})) (finalize_bucket r b)
  unfolding finalize_bucket
  finalize_bucket-Keeps w i =
      attempt-Keeps _ _ _ w (λ v j. j) (asking _ _ w i) (given _ _ w) (λ e v j. j)
        (λ c v j orderly. delete_if-Keeps c orderly v j)

  -- Where it returns no error, the bucket is gone.
  pub finalize_bucket-gone :
      (w : W) → Post (OnOk (λ _ v. (site v).buckets b.spec.name ≡ false)) (finalize_bucket r b) w
  unfolding finalize_bucket
  finalize_bucket-gone w =
      Post-attempt _ _ _ w (given _ _ w) (λ e v. record { at = tt })
        λ c v orderly. simp orderly.deletion_enabled (orderly.deleted_bucket_lem b.spec.name v)
