-- ===== src/PathCr/Finalizes.antt =====
-- internal/controller/path/finalizer.go: what the deletion of a Path brings about on the backend.
use s3_operator.Prelude.{
  String, ◌++◌, Bool, true, false, ◌≡◌, refl, subst, List, [], ◌∷◌, All, if◌then◌else◌, is_empty,
}
use s3_operator.Effect.{Result, ok, err, errorf, pure, ◌>>=◌}
use s3_operator.Effect.Post.{OnOk, Post, Post-bind, Post-attempt, Post-ok_both, Post-weaken, Sound}
use s3_operator.Effect.Returns.{Returns→Post}
use s3_operator.Effect.Settles.{OkWith}
use s3_operator.Helpers.Client.Connects.{for_ressource-Connected}
use s3_operator.Api.{PathCr, PathSpec, S3Instance}
use s3_operator.S3.{S3Client}
use s3_operator.S3.Backend.{Backend}
use s3_operator.S3.Laws.{IsLawful}
use s3_operator.S3.Responds.{IsResponsive}
use s3_operator.Cluster.{Reconciler}
use s3_operator.Cluster.Laws.{IsConnected, IsUpdating}
use s3_operator.Helpers.Client.Gives.{Permitted}
use s3_operator.Helpers.Client.Reached.{Reachable, for_ressource-Yields}
use s3_operator.Lifecycle.Deletes.{handle_deletion-Sound}
use s3_operator.PathCr.{path_finalizer, delete_paths, finalize_path, handle_deletion}
use s3_operator.PathCr.Deletes.{Shrinks, Gone, delete_paths-Clears}

-- None of the paths is left, and the bucket has gained none.
abbrev pub PathsRemoved : PathSpec → Backend → Backend → Type 0
PathsRemoved spec s t = Shrinks spec.bucket_name s t × All (Gone spec.bucket_name t) spec.paths

-- The end of `finalizePath`, behind the loop.
abbrev result_of : {W : Type 0} → Reconciler W → List String → Result (Unit {0})
result_of r failed_paths =
    if is_empty failed_paths
    then ok tt
    else err (
        errorf (
          "at least one path couldn't be removed from S3 backend "
          ++ r.formatting.quoted failed_paths))

module _ {W : Type 0} (r : Reconciler W) where
  result_of-Removed :
      (G : W → Type 0) (failed : List String) (v : W)
      → (failed ≡ [] → G v)
      → OnOk (λ _ u. G u) (result_of r failed) v
  result_of-Removed G [] v h = h refl
  result_of-Removed G (p ∷ ps) v h = tt

module _ {W A : Type 0} (P : A → Type 0) where
  OkWith→OnOk : (x : Result A) (w : W) → OkWith P x w → OnOk (λ a _. P a) x w
  OkWith→OnOk (ok a) w h = h
  OkWith→OnOk (err e) w h = tt

module _ {W : Type 0} {view : W → Backend} {r : Reconciler W} (k : IsConnected view r)
    (updating : IsUpdating view r.paths) (enabled : Bool) (p : PathCr) {I : S3Instance → Type 0}
    (reachable : Reachable r p.namespace p.spec.s3_instance_ref I
      (λ c. IsResponsive c × (c.get_config.path_deletion_enabled ≡ enabled))) where
  delete_if-Removed :
      (on : Bool) (c : S3Client W) (w : W)
      → IsLawful view c
      → IsResponsive c
      → Post
          (OnOk (λ _ u. Permitted on (PathsRemoved p.spec) (view w) (view u)))
          (if on
            then delete_paths r c p.spec.bucket_name [] p.spec.paths
              >>= (λ failed. pure (result_of r failed))
            else pure (ok tt))
          w
  delete_if-Removed true c w lawful up =
      Post-bind _ _ w
        (delete_paths-Clears r c lawful p.spec.bucket_name
          (λ q v. Returns→Post _ v (up.path_exists_lem p.spec.bucket_name q v)) p.spec.paths [] w)
        λ failed v clears. record {
          at =
              result_of-Removed r _ failed v
                (λ e. let (_, shrinks, gone) = clears e in (shrinks, gone));
        }
  delete_if-Removed false c w lawful up = record { at = refl }

  finalize_path-Removed :
      (w : W)
      → Post
          (OnOk (λ _ v. Permitted enabled (PathsRemoved p.spec) (view w) (view v)))
          (finalize_path r p)
          w
  unfolding finalize_path
  finalize_path-Removed w =
      Post-attempt _ _ _ w
        (Post-ok_both _ w (for_ressource-Connected k p.namespace p.spec.s3_instance_ref w)
          (Post-weaken _ w (OkWith→OnOk _) (Returns→Post _ w (for_ressource-Yields reachable w))))
        (λ e v. record { at = tt })
        λ c v ((lawful, same), (up, on)). simp on (
          subst
            (λ s.
              Post (OnOk (λ _ u. Permitted enabled (PathsRemoved p.spec) s (view u)))
                (if enabled
                  then delete_paths r c p.spec.bucket_name [] p.spec.paths
                    >>= (λ failed. pure (result_of r failed))
                  else pure (ok tt))
                v)
            same (delete_if-Removed enabled c v lawful up))

  pub handle_deletion-Did :
      (w : W)
      → r.machinery.contains_finalizer p.finalizers path_finalizer ≡ true
      → Post
          (Sound (λ v. Permitted enabled (PathsRemoved p.spec) (view w) (view v)))
          (handle_deletion r p)
          w
  unfolding handle_deletion
  handle_deletion-Did w has =
      handle_deletion-Sound r r.paths updating (Permitted enabled (PathsRemoved p.spec) (view w)) _
        _ _ p w has (finalize_path-Removed w)
