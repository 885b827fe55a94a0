-- ===== src/PathCr/Deletes.antt =====
-- What the deletion of a Path takes off the backend.
use mathlib.Core.List as L
use s3_operator.Prelude.{
  String, Bool, true, false, ◌≡◌, refl, sym, ◌∙◌, ap, none, List, [], ◌∷◌, All,
}
use s3_operator.Effect.{Result, ok, err, returned, pure}
use s3_operator.Effect.Post.{OnOk, Post, Post-bind, Post-both, Post-weaken, Post-run}
use s3_operator.S3.{S3Client}
use s3_operator.S3.Backend.{Backend, PathRemoved}
use s3_operator.S3.Laws.{IsLawful, Changes}
use s3_operator.Cluster.{Reconciler}
use s3_operator.PathCr.{with_failed, delete_if_found, delete_paths}

-- The bucket has not gained a path.
abbrev pub Shrinks : String → Backend → Backend → Type 0
Shrinks b s t = (p : String) → s.has_path b p ≡ false → t.has_path b p ≡ false

abbrev pub Gone : String → Backend → String → Type 0
Gone b s p = s.has_path b p ≡ false

-- What a loop that has collected no failure has done; it began with none then.
abbrev pub Clears : String → List String → Backend → List String → List String → Backend → Type 0
Clears b failed s ps failed' t = failed' ≡ [] → (failed ≡ []) × (Shrinks b s t) × All (Gone b t) ps

snoc_not_nil : (xs : List String) (x : String) → ¬ (L.◌++◌ xs (x ∷ []) ≡ [])
snoc_not_nil [] x h = absurd (cc)
snoc_not_nil (y ∷ xs) x h = absurd (cc)

module _ {W : Type 0} {view : W → Backend} (r : Reconciler W) (c : S3Client W)
    (lawful : IsLawful view c) (b : String)
    (answers : (p : String) (w : W) → Post (λ x _. x.1 ≡ none) (c.path_exists b p) w) where
  delete_if_found-Clears :
      (p : String) (failed : List String) (found : Bool) (w : W)
      → found ≡ (view w).has_path b p
      → Post
          (λ failed' v. Clears b failed (view w) (p ∷ []) failed' (view v))
          (delete_if_found r c b p failed found)
          w
  unfolding delete_if_found
  delete_if_found-Clears p failed false w reads = record {
    at = λ e. (e, (λ q h. h), (sym reads, tt));
  }
  delete_if_found-Clears p failed true w reads =
      Post-bind {P = OnOk (Changes view (PathRemoved b p) w)} _ _ w (lawful.delete_path_lem b p w)
        after
    where
      after :
          (d : Result (Unit {0})) (v : W)
          → OnOk (Changes view (PathRemoved b p) w) d v
          → Post
              (λ failed' v. Clears b failed (view w) (p ∷ []) failed' (view v))
              (pure (with_failed failed p d))
              v
      after (ok _) v e = record { at = λ f. (f, e.none_added, (e.path_gone, tt)) }
      after (err x) v e = record { at = λ f. absurd (snoc_not_nil failed p f) }

  pub delete_paths-Clears :
      (ps failed : List String) (w : W)
      → Post
          (λ failed' v. Clears b failed (view w) ps failed' (view v))
          (delete_paths r c b failed ps)
          w
  unfolding delete_paths
  delete_paths-Clears [] failed w = record { at = λ e. (e, (λ q h. h), tt) }
  delete_paths-Clears (p ∷ ps) failed w =
      Post-bind _ _ w (Post-both _ _ _ w (answers p w) (lawful.path_exists_lem b p w))
        λ x v (fine, reads).
          let (here, same) = reads fine in
          Post-bind _ _ v
            (delete_if_found-Clears p failed x.0 v (here ∙ ap (λ s. s.has_path b p) (sym same)))
            λ failed₁ u first.
              Post-weaken _ u
                (λ failed₂ t rest e.
                  let (e₁, shrinks, all) = rest e in
                  let (e₀, shrinks₀, gone) = first e₁ in
                  (
                    e₀,
                    (λ q h. shrinks q (shrinks₀ q (ap (λ s. s.has_path b q) same ∙ h))),
                    (shrinks p gone.0, all),
                  ))
                (delete_paths-Clears ps failed₁ u)

  -- If every check of a path of a lawful client answers, and the loop of `finalizePath` returns
  -- that no path has failed, then no path of the list is left in the bucket, and the bucket has
  -- gained none.
  pub delete_paths-Gone :
      (ps : List String) (w v : W)
      → delete_paths r c b [] ps w ≡ (returned [], v)
      → Shrinks b (view w) (view v) × All (Gone b (view v)) ps
  delete_paths-Gone ps w v run =
      let (_, shrinks, gone) = Post-run _ w (delete_paths-Clears ps [] w) [] v run refl in
      (shrinks, gone)
