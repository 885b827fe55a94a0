-- ===== src/Bucket/Converges.antt =====
-- What a bucket's reconciliation brings about on the backend, if it returns no error.
use s3_operator.Prelude.{
  String, true, ◌≡◌, refl, sym, ◌∙◌, ap, subst, none, some, List, [], ◌∷◌, All, ℤ, IsInt64, ◌=ℤ◌,
  =ℤ→eq, eq_refl, Bool-cases, inl, inr, if◌then◌else◌,
}
use s3_operator.Effect.{Eff, returned, Outcome}
use s3_operator.Effect.Post.{Post, Post-attempt, Post-weaken, Post-run, Sound}
use s3_operator.Api.{Bucket, BucketSpec}
use s3_operator.S3.{S3Client}
use s3_operator.S3.Backend.{Backend, add_bucket, with_quota, PathAdded}
use s3_operator.S3.Laws.{IsLawful, Reads, Writes, Changes}
use s3_operator.Cluster.{Reconciler}
use s3_operator.Cluster.Laws.{IsConnected, IsReporting}
use s3_operator.Helpers.Condition.Reports.{report-Sound, report-Leaves}
use s3_operator.Helpers.Client.Serves.{for_ressource-Sound}
use s3_operator.PathLoop.Creates.{
  Grows, Grows-refl, Grows-trans, PathAdded-Grows, HasPath, Served, ensure_paths-Sound,
}
use s3_operator.Bucket.Target.{IsTarget, IsTarget-chosen}
use s3_operator.Bucket.{
  quota_to_reset_to, set_reconciled_condition, with_client, reset_quota, update_paths, update_quota,
  handle_update, create_paths, create_quota, handle_creation, handle_reconciliation,
}

-- The backend has the bucket of a spec, with the quota `q` and every path of the spec.
pub record Realizes (spec : BucketSpec) (q : ℤ) (s : Backend) : Type 0 where
  pub bucket_there : s.has_bucket spec.name ≡ true
  pub quota_set : s.quota_of spec.name ≡ q
  pub paths_there : All (HasPath spec.name s) spec.paths

-- The quota that a reconciliation from the backend `s` aims at: of a bucket that is there the
-- override, or the default if that is zero, and of a new one the default.
abbrev pub quota_aimed_at : Bucket → ℤ → Backend → ℤ
quota_aimed_at b q s = if s.has_bucket b.spec.name then q else b.spec.quota.default.as_int64.0

module _ {W : Type 0} {view : W → Backend} {r : Reconciler W} (k : IsConnected view r)
    {G : W → Type 0} where
  pub with_client-Sound :
      (b : Bucket) (rest : S3Client W → Eff W Outcome) (w : W)
      → ((c : S3Client W) (v : W) → IsLawful view c → view v ≡ view w → Post (Sound G) (rest c) v)
      → Post (Sound G) (with_client r b rest) w
  unfolding with_client set_reconciled_condition
  with_client-Sound b rest w h = for_ressource-Sound k r.buckets b _ _ _ rest w h

module _ {W : Type 0} {view : W → Backend} {r : Reconciler W} (k : IsConnected view r)
    (reporting : IsReporting view r.buckets) where
  -- The last report leaves the backend as it was.
  report-Realizes :
      (b : Bucket) (q : ℤ) (reason message : String) (w : W)
      → Realizes b.spec q (view w)
      → Post
          (Sound (λ v. Realizes b.spec q (view v)))
          (set_reconciled_condition r b reason message none)
          w
  unfolding set_reconciled_condition
  report-Realizes b q reason message w h =
      Post-weaken _ w (λ a v e _. subst (Realizes b.spec q) (sym e) h)
        (report-Leaves r r.buckets reporting b reason message none w)

  update_paths-Realizes :
      (b : Bucket) (q : ℤ) (c : S3Client W) (w : W)
      → IsLawful view c
      → (view w).has_bucket b.spec.name ≡ true
      → (view w).quota_of b.spec.name ≡ q
      → Post (Sound (λ v. Realizes b.spec q (view v))) (update_paths r c b) w
  unfolding update_paths
  update_paths-Realizes b q c w lawful there quota =
      ensure_paths-Sound r r.buckets c lawful b b.spec.name b.spec.paths _ w λ v (g, all).
        report-Realizes b q _ _ v (record {
          bucket_there = ap (λ f. f b.spec.name) g.same_buckets ∙ there;
          quota_set = ap (λ f. f b.spec.name) g.same_quotas ∙ quota;
          paths_there = all;
        })

  reset_quota-Realizes :
      (b : Bucket) (q e : ℤ) (c : S3Client W) (w : W)
      → IsLawful view c
      → IsInt64 q
      → (view w).has_bucket b.spec.name ≡ true
      → e ≡ (view w).quota_of b.spec.name
      → Post
          (Sound (λ v. Realizes b.spec q (view v)))
          (reset_quota r c b e q (update_paths r c b))
          w
  unfolding reset_quota set_reconciled_condition
  reset_quota-Realizes b q e c w lawful fits there reads = elim (Bool-cases (e =ℤ q)) [
    | inl same ↦ rw same (update_paths-Realizes b q c w lawful there (sym reads ∙ =ℤ→eq e q same))
    | inr other ↦ rw other (
        Post-attempt {P = Writes view (with_quota b.spec.name q) w} _ _ _ w
          (lawful.set_quota_lem b.spec.name q w fits) (λ x v. report-Sound r r.buckets b _ _ x v)
          λ _ v writes.
            update_paths-Realizes b q c v lawful (ap (λ s. s.has_bucket b.spec.name) writes ∙ there)
              (ap (λ s. s.quota_of b.spec.name) writes ∙ rw (eq_refl b.spec.name) refl))
  ]

  pub handle_update-Realizes :
      (b : Bucket) (q : ℤ) (w : W)
      → IsInt64 q
      → quota_to_reset_to b.spec.quota ≡ some q
      → (view w).has_bucket b.spec.name ≡ true
      → Post (Sound (λ v. Realizes b.spec q (view v))) (handle_update r b) w
  unfolding handle_update update_quota set_reconciled_condition
  handle_update-Realizes b q w fits target there = with_client-Sound k b _ w λ c v lawful same.
      Post-attempt {P = Reads view (λ s. s.quota_of b.spec.name) v} _ _ _ v
        (lawful.get_quota_lem b.spec.name v) (λ e u. report-Sound r r.buckets b _ _ e u)
        λ e u (reads, still). rw target (
          reset_quota-Realizes b q e c u lawful fits
            (ap (λ s. s.has_bucket b.spec.name) (still ∙ same) ∙ there)
            (reads ∙ ap (λ s. s.quota_of b.spec.name) (sym still)))

  create_paths-Served :
      (b : Bucket) (c : S3Client W) (lawful : IsLawful view c) (ps : List String) (w : W)
      → Post (Sound (λ v. Served b.spec.name ps (view w) (view v))) (create_paths r c b ps) w
  unfolding create_paths set_reconciled_condition
  create_paths-Served b c lawful [] w =
      Post-weaken _ w
        (λ a v e _.
          (subst (Grows b.spec.name (view w)) (sym e) (Grows-refl b.spec.name (view w)), tt))
        (report-Leaves r r.buckets reporting b _ _ none w)
  create_paths-Served b c lawful (p ∷ ps) w =
      Post-attempt {P = Changes view (PathAdded b.spec.name p) w} _ _ _ w
        (lawful.create_path_lem b.spec.name p w) (λ e v. report-Sound r r.buckets b _ _ e v)
        λ _ v writes.
          Post-weaken _ v
            (λ a u h fine.
              let (more, all) = h fine in
              (
                Grows-trans (PathAdded-Grows writes) more,
                (more.keeps_paths p writes.path_there, all),
              ))
            (create_paths-Served b c lawful ps v)

  create_quota-Realizes :
      (b : Bucket) (c : S3Client W) (w : W)
      → IsLawful view c
      → IsInt64 b.spec.quota.default.as_int64.0
      → b.spec.quota.default.as_int64.1 ≡ true
      → (view w).has_bucket b.spec.name ≡ true
      → Post
          (Sound (λ v. Realizes b.spec b.spec.quota.default.as_int64.0 (view v)))
          (create_quota r c b)
          w
  unfolding create_quota set_reconciled_condition
  create_quota-Realizes b c w lawful fits converts there =
      let q = b.spec.quota.default.as_int64.0 in
      simp converts (
        Post-attempt {P = Writes view (with_quota b.spec.name q) w} _ _ _ w
          (lawful.set_quota_lem b.spec.name q w fits) (λ e v. report-Sound r r.buckets b _ _ e v)
          λ _ v writes.
            Post-weaken _ v
              (λ a u h fine.
                let (g, all) = h fine in
                record {
                  bucket_there =
                      ap (λ f. f b.spec.name) g.same_buckets
                      ∙ ap (λ s. s.has_bucket b.spec.name) writes
                      ∙ there;
                  quota_set =
                      ap (λ f. f b.spec.name) g.same_quotas
                      ∙ ap (λ s. s.quota_of b.spec.name) writes
                      ∙ rw (eq_refl b.spec.name) refl;
                  paths_there = all;
                })
              (create_paths-Served b c lawful b.spec.paths v))

  pub handle_creation-Realizes :
      (b : Bucket) (w : W)
      → IsInt64 b.spec.quota.default.as_int64.0
      → b.spec.quota.default.as_int64.1 ≡ true
      → Post
          (Sound (λ v. Realizes b.spec b.spec.quota.default.as_int64.0 (view v)))
          (handle_creation r b)
          w
  unfolding handle_creation set_reconciled_condition
  handle_creation-Realizes b w fits converts = with_client-Sound k b _ w λ c v lawful same.
      Post-attempt {P = Writes view (add_bucket b.spec.name) v} _ _ _ v
        (lawful.create_bucket_lem b.spec.name v) (λ e u. report-Sound r r.buckets b _ _ e u)
        λ _ u writes.
          create_quota-Realizes b c u lawful fits converts
            (ap (λ s. s.has_bucket b.spec.name) writes ∙ rw (eq_refl b.spec.name) refl)

  pub handle_reconciliation-Sound :
      (b : Bucket) (q : ℤ) (w : W)
      → IsInt64 b.spec.quota.default.as_int64.0
      → IsInt64 q
      → b.spec.quota.default.as_int64.1 ≡ true
      → quota_to_reset_to b.spec.quota ≡ some q
      → Post
          (Sound (λ v. Realizes b.spec (quota_aimed_at b q (view w)) (view v)))
          (handle_reconciliation r b)
          w
  unfolding handle_reconciliation set_reconciled_condition
  handle_reconciliation-Sound b q w dfits fits converts target =
      with_client-Sound k b _ w λ c v lawful same.
        Post-attempt {P = Reads view (λ s. s.has_bucket b.spec.name) v} _ _ _ v
          (lawful.bucket_exists_lem b.spec.name v) (λ e u. report-Sound r r.buckets b _ _ e u)
          λ found u (reads, still).
            let here = reads ∙ ap (λ s. s.has_bucket b.spec.name) same in
            elim (Bool-cases found) [
              | inl y ↦
                  rw (y, sym here ∙ y)
                    (handle_update-Realizes b q u fits target
                      (ap (λ s. s.has_bucket b.spec.name) still ∙ sym reads ∙ y))
              | inr n ↦ rw (n, sym here ∙ n) (handle_creation-Realizes b u dfits converts)
            ]

  -- Where clients are lawful and the API server's calls leave the backend alone: if the
  -- reconciliation of a bucket whose quotas convert to int64 values returns no error, the backend
  -- has the bucket with every path of the spec. Its quota is the override, or the default if the
  -- override is zero, if the bucket was there before, and the default if the bucket was made by
  -- this run.
  pub handle_reconciliation-Realizes :
      (b : Bucket) (q : ℤ) (w v : W) (a : Outcome)
      → IsInt64 b.spec.quota.default.as_int64.0
      → IsInt64 q
      → b.spec.quota.default.as_int64.1 ≡ true
      → IsTarget b.spec.quota q
      → handle_reconciliation r b w ≡ (returned a, v)
      → a.error ≡ none
      → Realizes b.spec (quota_aimed_at b q (view w)) (view v)
  handle_reconciliation-Realizes b q w v a dfits fits converts target run fine =
      Post-run _ w
        (handle_reconciliation-Sound b q w dfits fits converts
          (IsTarget-chosen b.spec.quota q target))
        a v run fine
