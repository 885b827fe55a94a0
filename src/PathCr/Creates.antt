-- ===== src/PathCr/Creates.antt =====
-- What the reconciliation of a Path brings about on the backend, if it returns no error.
use s3_operator.Prelude.{Bool, true, false, ◌≡◌, sym, ◌∙◌, ap, subst, none}
use s3_operator.Effect.{returned, Outcome}
use s3_operator.Effect.Post.{Post, Post-attempt, Post-weaken, Post-run, Sound}
use s3_operator.Api.{PathCr, PathSpec}
use s3_operator.S3.{S3Client}
use s3_operator.S3.Backend.{Backend}
use s3_operator.S3.Laws.{IsLawful, Reads}
use s3_operator.Cluster.{Reconciler}
use s3_operator.Cluster.Laws.{IsConnected, IsReporting}
use s3_operator.Helpers.Condition.Reports.{report-Sound, report-Leaves}
use s3_operator.Helpers.Client.Serves.{for_ressource-Sound}
use s3_operator.PathLoop.Creates.{Grows, Served, ensure_paths-Sound}
use s3_operator.PathCr.{set_reconciled_condition, create_in_bucket, handle_reconciliation}

-- What a reconciliation without an error has done to the backend.
pub data Provides (spec : PathSpec) (s t : Backend) : Type 0 where
  created :
      s.has_bucket spec.bucket_name ≡ true
      → Served spec.bucket_name spec.paths s t
      → Provides spec s t
  no_bucket : s.has_bucket spec.bucket_name ≡ false → t ≡ s → Provides spec s t

module _ {W : Type 0} {view : W → Backend} {r : Reconciler W} (k : IsConnected view r)
    (reporting : IsReporting view r.paths) where
  create_in_bucket-Provides :
      (p : PathCr) (c : S3Client W) (found : Bool) (s : Backend) (w : W)
      → IsLawful view c
      → found ≡ s.has_bucket p.spec.bucket_name
      → view w ≡ s
      → Post (Sound (λ v. Provides p.spec s (view v))) (create_in_bucket r c p found) w
  unfolding create_in_bucket set_reconciled_condition
  create_in_bucket-Provides p c false s w lawful reads same =
      Post-weaken _ w (λ a v e _. Provides.no_bucket (sym reads) (e ∙ same))
        (report-Leaves r r.paths reporting p _ _ none w)
  create_in_bucket-Provides p c true s w lawful reads same =
      ensure_paths-Sound r r.paths c lawful p p.spec.bucket_name p.spec.paths _ w λ v (g, all).
        Post-weaken _ v
          (λ a u e _. Provides.created (sym reads) (
            subst (Served p.spec.bucket_name p.spec.paths s) (sym e)
              (subst (λ s. Grows p.spec.bucket_name s (view v)) same g, all)))
          (report-Leaves r r.paths reporting p _ _ none v)

  pub handle_reconciliation-Sound :
      (p : PathCr) (w : W)
      → Post (Sound (λ v. Provides p.spec (view w) (view v))) (handle_reconciliation r p) w
  unfolding handle_reconciliation set_reconciled_condition
  handle_reconciliation-Sound p w = for_ressource-Sound k r.paths p _ _ _ _ w λ c v lawful same.
      Post-attempt {P = Reads view (λ s. s.has_bucket p.spec.bucket_name) v} _ _ _ v
        (lawful.bucket_exists_lem p.spec.bucket_name v) (λ e u. report-Sound r r.paths p _ _ e u)
        λ found u (reads, still).
          create_in_bucket-Provides p c found (view w) u lawful
            (reads ∙ ap (λ s. s.has_bucket p.spec.bucket_name) same) (still ∙ same)

  -- Where clients are lawful and the API server's calls leave the backend alone:
  -- if the reconciliation of a Path returns no error, then either its bucket was there, has every
  -- path of the spec, and has lost no path, while no bucket and no quota has changed; or its bucket
  -- was not there, and the backend is as it was.
  pub handle_reconciliation-Provides :
      (p : PathCr) (w v : W) (a : Outcome)
      → handle_reconciliation r p w ≡ (returned a, v)
      → a.error ≡ none
      → Provides p.spec (view w) (view v)
  handle_reconciliation-Provides p w v a run fine =
      Post-run _ w (handle_reconciliation-Sound p w) a v run fine
