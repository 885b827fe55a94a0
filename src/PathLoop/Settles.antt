-- ===== src/PathLoop/Settles.antt =====
-- The loop over the paths goes through to what stands behind it, if the calls in it go through.
use s3_operator.Prelude.{String, Bool, true, false, ◌≡◌, Option, none, some, List, [], ◌∷◌}
use s3_operator.Effect.{Error, Eff, Outcome}
use s3_operator.Effect.Returns.{Returns-bind}
use s3_operator.Effect.Settles.{Settles, Settles-attempt}
use s3_operator.Api.{Resource}
use s3_operator.S3.{S3Client}
use s3_operator.S3.Responds.{IsResponsive}
use s3_operator.Cluster.{ResourceClient, Reconciler}
use s3_operator.PathLoop.{create_missing, ensure_paths}

module _ {W Spec : Type 0} (r : Reconciler W) (client : ResourceClient W Spec) (c : S3Client W)
    (up : IsResponsive c) (o : Resource Spec) (b : String) where
  round-Settles :
      (p : String) (rest : Eff W Outcome) (found : Bool) (e : Option Error)
      → e ≡ none
      → Settles rest
      → Settles (create_missing r client c o b p rest (found, e))
  round-Settles p rest found (some e) fine h = absurd (cc)
  round-Settles p rest true none fine h = h
  round-Settles p rest false none fine h = Settles-attempt _ _ _ (up.create_path_lem b p) (λ _ _. h)

  pub ensure_paths-Settles :
      (ps : List String) (rest : Eff W Outcome)
      → Settles rest
      → Settles (ensure_paths r client c o b ps rest)
  unfolding ensure_paths
  ensure_paths-Settles [] rest h w = h w
  ensure_paths-Settles (p ∷ ps) rest h w =
      Returns-bind _ _ w (up.path_exists_lem b p w)
        (λ x v fine. round-Settles p _ x.0 x.1 fine (ensure_paths-Settles ps rest h) v)
