-- ===== src/S3/Minio/Writes.antt =====
-- internal/s3/client/impl/minioS3Client.go: what the writes of the client are to the controllers.
use mathlib.Core.Path.{fun_ext}
use s3_operator.Prelude.{
  String, ◌++◌, Bool, true, false, not, ◌&&◌, ◌||◌, ◌==◌, ◌≡◌, refl, sym, ◌∙◌, ap, List, contains,
  arith, eq_iff, eq_refl, Bool-cases, inl, inr,
}
use s3_operator.S3.Backend.{put, put₂, PathAdded, PathRemoved}
use s3_operator.S3.Minio.Server.{ServerState, backend_of}

-- The key of a path, with a slash in front of it as it is written, is that of its queries.
pub PathAdded-put :
    (canonical : String → String) (b p : String) (s : ServerState)
    → canonical ("/" ++ (p ++ "/.keep")) ≡ canonical (p ++ "/.keep")
    → PathAdded b p (backend_of canonical s) (
        backend_of canonical
          (record s { has_object = put₂ b (canonical ("/" ++ (p ++ "/.keep"))) true s.has_object }))
PathAdded-put canonical b p s h = rw h (record {
  path_there = rw (eq_refl b, eq_refl (canonical (p ++ "/.keep")));
  paths_kept = λ q there. ground arith;
  rest_same = refl;
})

pub PathRemoved-put :
    (canonical : String → String) (b p : String) (s : ServerState)
    → canonical ("/" ++ (p ++ "/.keep")) ≡ canonical (p ++ "/.keep")
    → PathRemoved b p (backend_of canonical s) (
        backend_of canonical (record s {
          has_object = put₂ b (canonical ("/" ++ (p ++ "/.keep"))) false s.has_object;
        }))
PathRemoved-put canonical b p s h = rw h (record {
  path_gone = rw (eq_refl b, eq_refl (canonical (p ++ "/.keep")));
  none_added = λ q there. ground arith;
  rest_same = refl;
})

-- A write at one key, seen through a function.
pub put-map :
    {A B : Type 0} (f : A → B) (n : String) (a : A) (g : String → A)
    → (λ m. f (put n a g m)) ≡ put n (f a) (λ m. f (g m))
put-map f n a g = fun_ext λ m. elim (Bool-cases (n == m)) [ inl e ↦ rw e refl | inr e ↦ rw e refl ]

-- A write of what is there already.
pub put_same : {A : Type 0} (n : String) (a : A) (g : String → A) → g n ≡ a → g ≡ put n a g
put_same n a g h = fun_ext λ m. elim (Bool-cases (n == m)) [
  | inl e ↦ rw e (ap g (sym ((eq_iff n m).0 e)) ∙ h)
  | inr e ↦ rw e refl
]

-- Attaching what is attached, and detaching what is not.
pub attach_same :
    (n : String) (ps : List String) (g : String → String → Bool)
    → ((p : String) → contains ps p ≡ true → g n p ≡ true)
    → g ≡ put n (λ p. g n p || contains ps p) g
attach_same n ps g h = put_same n _ g (
    fun_ext
      λ p. elim (Bool-cases (contains ps p)) [ inl e ↦ ground (arith, h p) | inr e ↦ ground arith ])

pub detach_same :
    (n : String) (ps : List String) (g : String → String → Bool)
    → ((p : String) → contains ps p ≡ true → g n p ≡ false)
    → g ≡ put n (λ p. g n p && not (contains ps p)) g
detach_same n ps g h = put_same n _ g (
    fun_ext
      λ p. elim (Bool-cases (contains ps p)) [ inl e ↦ ground (arith, h p) | inr e ↦ ground arith ])
