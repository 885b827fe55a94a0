-- ===== src/PathLoop/Creates.antt =====
-- Behind the loop every path of the list is there, and what was there before is there still.
use s3_operator.Prelude.{
  String, Bool, true, false, ◌≡◌, refl, sym, ◌∙◌, ap, subst, Option, none, some, List, [], ◌∷◌, All,
}
use s3_operator.Effect.{Error, Eff, Outcome}
use s3_operator.Effect.Post.{Post, Post-bind, Post-attempt, Sound}
use s3_operator.Api.{Resource}
use s3_operator.S3.{S3Client}
use s3_operator.S3.Backend.{Backend, PathAdded}
use s3_operator.S3.Laws.{IsLawful, Reads, Changes}
use s3_operator.Cluster.{ResourceClient, Reconciler}
use s3_operator.Helpers.Condition.Reports.{report-Sound}
use s3_operator.PathLoop.{create_missing, ensure_paths}

-- From `s` to `t` the bucket has lost no path, and nothing but paths has changed.
pub record Grows (bucket : String) (s t : Backend) : Type 0 where
  pub same_buckets : t.has_bucket ≡ s.has_bucket
  pub same_quotas : t.quota_of ≡ s.quota_of
  pub keeps_paths : (p : String) → s.has_path bucket p ≡ true → t.has_path bucket p ≡ true

abbrev pub HasPath : String → Backend → String → Type 0
HasPath bucket s p = s.has_path bucket p ≡ true

pub Grows-refl : (b : String) (s : Backend) → Grows b s s
Grows-refl b s = record { same_buckets = refl; same_quotas = refl; keeps_paths = λ p h. h }

pub Grows-trans : {b : String} {s t u : Backend} → Grows b s t → Grows b t u → Grows b s u
Grows-trans g h = record {
  same_buckets = h.same_buckets ∙ g.same_buckets;
  same_quotas = h.same_quotas ∙ g.same_quotas;
  keeps_paths = λ p e. h.keeps_paths p (g.keeps_paths p e);
}

pub PathAdded-Grows : {b p : String} {s t : Backend} → PathAdded b p s t → Grows b s t
PathAdded-Grows h = record {
  same_buckets = ap (λ s. s.has_bucket) h.rest_same;
  same_quotas = ap (λ s. s.quota_of) h.rest_same;
  keeps_paths = h.paths_kept;
}

-- What the rest of the handler may build on.
abbrev pub Served : String → List String → Backend → Backend → Type 0
Served b ps s t = Grows b s t × All (HasPath b t) ps

module _ {W Spec : Type 0} {view : W → Backend} {G : W → Type 0} (r : Reconciler W)
    (client : ResourceClient W Spec) (c : S3Client W) (lawful : IsLawful view c) (o : Resource Spec)
    (b : String) where
  -- A round, given what the other rounds do.
  round-Sound :
      (p : String) (ps : List String) (rest : Eff W Outcome) (w v : W) (x : Bool × Option Error)
      → (x.1 ≡ none → Reads view (λ s. s.has_path b p) w x.0 v)
      → ((u : W) → Grows b (view w) (view u) → HasPath b (view u) p → Post (Sound G) rest u)
      → Post (Sound G) (create_missing r client c o b p rest x) v
  round-Sound p ps rest w v (found, some e) reads k = report-Sound r client o _ _ e v
  round-Sound p ps rest w v (true, none) reads k =
      let (here, same) = reads refl in
      k v (subst (Grows b (view w)) (sym same) (Grows-refl b (view w)))
        (ap (λ s. s.has_path b p) same ∙ sym here)
  round-Sound p ps rest w v (false, none) reads k =
      Post-attempt {P = Changes view (PathAdded b p) v} _ _ _ v (lawful.create_path_lem b p v)
        (λ e u. report-Sound r client o _ _ e u)
        λ _ u e.
          k u (PathAdded-Grows (subst (λ s. PathAdded b p s (view u)) (reads refl).1 e))
            e.path_there

  pub ensure_paths-Sound :
      (ps : List String) (rest : Eff W Outcome) (w : W)
      → ((v : W) → Served b ps (view w) (view v) → Post (Sound G) rest v)
      → Post (Sound G) (ensure_paths r client c o b ps rest) w
  unfolding ensure_paths
  ensure_paths-Sound [] rest w k = k w (Grows-refl b (view w), tt)
  ensure_paths-Sound (p ∷ ps) rest w k = Post-bind _ _ w (lawful.path_exists_lem b p w) λ x v reads.
      round-Sound p ps _ w v x reads λ u g here.
        ensure_paths-Sound ps rest u
          λ t (more, all). k t (Grows-trans g more, (more.keeps_paths p here, all))
