-- ===== src/PathLoop/Stays.antt =====
-- Where every path is there, the loop over the paths leaves the backend as it was.
use mathlib.Core.Bool.{false≢true}
use s3_operator.Prelude.{
  String, Bool, true, false, ◌≡◌, refl, ◌∙◌, ap, Option, none, some, List, [], ◌∷◌, All,
}
use s3_operator.Effect.{Error, Eff, Outcome}
use s3_operator.Effect.Post.{Post, Post-bind, Sound}
use s3_operator.Api.{Resource}
use s3_operator.S3.{S3Client}
use s3_operator.S3.Backend.{Backend}
use s3_operator.S3.Laws.{IsLawful}
use s3_operator.Cluster.{ResourceClient, Reconciler}
use s3_operator.Helpers.Condition.Reports.{report-Sound}
use s3_operator.PathLoop.{create_missing, ensure_paths}
use s3_operator.PathLoop.Creates.{HasPath}

module _ {W Spec : Type 0} {view : W → Backend} {G : W → Type 0} (r : Reconciler W)
    (client : ResourceClient W Spec) (c : S3Client W) (lawful : IsLawful view c) (o : Resource Spec)
    (b : String) (s : Backend) where
  round-Stays :
      (p : String) (rest : Eff W Outcome) (v : W) (x : Bool × Option Error)
      → (x.1 ≡ none → (x.0 ≡ true) × (view v ≡ s))
      → (view v ≡ s → Post (Sound G) rest v)
      → Post (Sound G) (create_missing r client c o b p rest x) v
  round-Stays p rest v (found, some e) reads k = report-Sound r client o _ _ e v
  round-Stays p rest v (true, none) reads k = k (reads refl).1
  round-Stays p rest v (false, none) reads k = absurd (false≢true (reads refl).0)

  pub ensure_paths-Stays :
      (ps : List String) (rest : Eff W Outcome) (w : W)
      → All (HasPath b s) ps
      → view w ≡ s
      → ((v : W) → view v ≡ s → Post (Sound G) rest v)
      → Post (Sound G) (ensure_paths r client c o b ps rest) w
  unfolding ensure_paths
  ensure_paths-Stays [] rest w there same k = k w same
  ensure_paths-Stays (p ∷ ps) rest w (here, there) same k =
      Post-bind _ _ w (lawful.path_exists_lem b p w) λ x v reads.
        round-Stays p _ v x
          (λ fine.
            let (found, still) = reads fine in
            (found ∙ ap (λ s. s.has_path b p) same ∙ here, still ∙ same))
          (λ same'. ensure_paths-Stays ps rest v there same' k)
