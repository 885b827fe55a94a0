-- ===== src/Helpers/Namespaces/Globs.antt =====
-- The test of a namespace against the patterns of an instance, against what the patterns mean.
use text.Mathlib.TextLemmas.{append-nil, append_assoc}
use s3_operator.Prelude.{
  String, ◌++◌, Bool, true, false, ◌&&◌, ◌==◌, ◌≡◌, ◌↔◌, ◌⊎◌, inl, inr, refl, sym, ap, subst, List,
  [], ◌∷◌, is_empty, arith, eq_iff, if◌then◌else◌,
}
use s3_operator.Text.{has_prefix, has_suffix, has_infix, trim_prefix, trim_suffix}
use s3_operator.Text.Laws.{
  has_prefix→append, has_prefix-append, trim_prefix-append, has_suffix→append, has_suffix-append,
  has_infix→append, has_infix-append, trim_suffix-append, has_suffix-star, &&-true,
}
use s3_operator.Api.{S3Instance}
use s3_operator.Helpers.Namespaces.{fits, fits_any, is_allowed_namespaces}

-- What a pattern means: itself, or with a star for any text in front, behind, or on both sides.
pub data Globs (ns pattern : String) : Type 0 where
  exact : ns ≡ pattern → Globs ns pattern
  in_front : (x a : String) → pattern ≡ "*" ++ x → ns ≡ a ++ x → Globs ns pattern
  behind : (x b : String) → pattern ≡ x ++ "*" → ns ≡ x ++ b → Globs ns pattern
  around : (x a b : String) → pattern ≡ "*" ++ (x ++ "*") → ns ≡ a ++ (x ++ b) → Globs ns pattern

-- The namespace has one of the patterns.
pub data AnyGlobs (ns : String) : List String → Type 0 where
  first : {p : String} {ps : List String} → Globs ns p → AnyGlobs ns (p ∷ ps)
  later : {p : String} {ps : List String} → AnyGlobs ns ps → AnyGlobs ns (p ∷ ps)

-- Who may use the instance: with no patterns its own namespace alone.
pub data MayUse (ns : String) (s : S3Instance) : Type 0 where
  own : s.spec.allowed_namespaces ≡ [] → ns ≡ s.namespace → MayUse ns s
  listed : AnyGlobs ns s.spec.allowed_namespaces → MayUse ns s

if_true : (b c : Bool) → (if b then true else c) ≡ true → (b ≡ true) ⊎ (c ≡ true)
if_true b c h = ground arith

-- The first test of the chain, of a pattern whose first star is taken off.
around-Globs :
    (ns y : String)
    → has_suffix ("*" ++ y) "*" ≡ true
    → has_infix ns (trim_suffix y "*") ≡ true
    → Globs ns ("*" ++ y)
around-Globs ns y hs hi = elim (has_suffix-star y hs) [
  | inl e ↦ in_front "" ns e (sym (append-nil ns))
  | inr e ↦
      let (a, b, q) = has_infix→append ns (trim_suffix y "*") hi in
      around (trim_suffix y "*") a b (ap (λ t. "*" ++ t) (has_suffix→append y "*" e)) q
]

-- The rest of the chain.
ends-Globs :
    (ns p : String)
    → (if has_prefix p "*" && has_suffix ns (trim_prefix p "*")
        then true
        else if has_suffix p "*" && has_prefix ns (trim_suffix p "*")
        then true
        else ns == p)
      ≡ true
    → Globs ns p
ends-Globs ns p h = elim (if_true _ _ h) [
  | inl e ↦
      let r = &&-true (has_prefix p "*") _ e in
      in_front (trim_prefix p "*") (trim_suffix ns (trim_prefix p "*"))
        (has_prefix→append p "*" r.0) (has_suffix→append ns (trim_prefix p "*") r.1)
  | inr e ↦ elim (if_true _ _ e) [
    | inl f ↦
        let r = &&-true (has_suffix p "*") _ f in
        behind (trim_suffix p "*") (trim_prefix ns (trim_suffix p "*"))
          (has_suffix→append p "*" r.0) (has_prefix→append ns (trim_suffix p "*") r.1)
    | inr f ↦ exact ((eq_iff ns p).0 f)
  ]
]

fits-Globs : (ns p : String) → fits ns p ≡ true → Globs ns p
unfolding fits
fits-Globs ns p h = elim (if_true _ _ h) [
  | inl e ↦
      let hp = (&&-true (has_prefix p "*") _ e).0 in
      let r = &&-true (has_suffix p "*") _ (&&-true (has_prefix p "*") _ e).1 in
      let q = has_prefix→append p "*" hp in
      subst (Globs ns) (sym q)
        (around-Globs ns (trim_prefix p "*") (subst (λ t. has_suffix t "*" ≡ true) q r.0) r.1)
  | inr e ↦ ends-Globs ns p e
]

Globs-fits : (ns p : String) → Globs ns p → fits ns p ≡ true
unfolding fits
Globs-fits ns p (exact e) = ground (arith, eq_iff ns p)
Globs-fits ns p (in_front x a e q) =
    ground (arith, has_prefix-append "*" x, trim_prefix-append "*" x, has_suffix-append a x)
Globs-fits ns p (behind x b e q) =
    ground (arith, has_suffix-append x "*", trim_suffix-append x "*", has_prefix-append x b)
Globs-fits ns p (around x a b e q) = ground (
  arith,
  has_prefix-append "*" (x ++ "*"),
  trim_prefix-append "*" (x ++ "*"),
  trim_suffix-append x "*",
  append_assoc "*" x "*",
  has_suffix-append ("*" ++ x) "*",
  has_infix-append a x b,
)

fits_any-AnyGlobs : (ns : String) (ps : List String) → fits_any ns ps ≡ true → AnyGlobs ns ps
unfolding fits_any
fits_any-AnyGlobs ns [] h = absurd (cc)
fits_any-AnyGlobs ns (p ∷ ps) h = elim (if_true _ _ h) [
  | inl e ↦ first (fits-Globs ns p e)
  | inr e ↦ later (fits_any-AnyGlobs ns ps e)
]

AnyGlobs-fits_any : (ns : String) (ps : List String) → AnyGlobs ns ps → fits_any ns ps ≡ true
unfolding fits_any
AnyGlobs-fits_any ns [] g = elim g [ ]
AnyGlobs-fits_any ns (p ∷ ps) (first g) = rw (Globs-fits ns p g) refl
AnyGlobs-fits_any ns (p ∷ ps) (later g) = ground (arith, AnyGlobs-fits_any ns ps g)

list_cases : (ps : List String) → (ps ≡ []) ⊎ (is_empty ps ≡ false)
list_cases [] = inl refl
list_cases (p ∷ ps) = inr refl

AnyGlobs-not_empty : (ns : String) (ps : List String) → AnyGlobs ns ps → is_empty ps ≡ false
AnyGlobs-not_empty ns [] g = elim g [ ]
AnyGlobs-not_empty ns (p ∷ ps) g = refl

allowed-MayUse : (ns : String) (s : S3Instance) → is_allowed_namespaces ns s ≡ true → MayUse ns s
unfolding is_allowed_namespaces
allowed-MayUse ns s h = elim (list_cases s.spec.allowed_namespaces) [
  | inl e ↦ own e ((eq_iff ns s.namespace).0 (rw e at h))
  | inr e ↦ listed (fits_any-AnyGlobs ns s.spec.allowed_namespaces (rw e at h))
]

MayUse-allowed : (ns : String) (s : S3Instance) → MayUse ns s → is_allowed_namespaces ns s ≡ true
unfolding is_allowed_namespaces
MayUse-allowed ns s (own e q) = rw e ((eq_iff ns s.namespace).1 q)
MayUse-allowed ns s (listed g) =
    rw (AnyGlobs-not_empty ns s.spec.allowed_namespaces g)
      (AnyGlobs-fits_any ns s.spec.allowed_namespaces g)

-- `IsAllowedNamespaces` admits exactly the namespaces that may use the instance: its own one if it
-- lists no patterns, and otherwise those that one of its patterns stands for.
pub is_allowed_namespaces_iff :
    (ns : String) (s : S3Instance) → (is_allowed_namespaces ns s ≡ true) ↔ MayUse ns s
is_allowed_namespaces_iff ns s = (allowed-MayUse ns s, MayUse-allowed ns s)
