-- ===== src/Text/Laws.antt =====
-- The package strings: prefixes, suffixes and infixes are those of concatenation, and trimming
-- takes them off.
use Prim.Native.Char.{code, Char}
use Prim.Native.String.{[], ◌∷◌, count}
use text.Mathlib.TextLemmas.{nil-append, cons-append, length-append, length-cons}
use text.Mathlib.TextEquality.{Char-path}
use s3_operator.Prelude.{
  String, Bool, true, false, ◌&&◌, ◌||◌, ◌==◌, ◌=ℕ◌, ◌≡◌, ◌⊎◌, inl, inr, refl, ap, sym, ◌∙◌, arith,
  eq_iff, eq_refl, Bool-cases, ◌++◌,
}
use s3_operator.Text.{has_prefix, has_suffix, has_infix, drop_prefix, trim_prefix, trim_suffix}

code_eq : (c d : Char) → (code c =ℕ code d) ≡ true → c ≡ d
code_eq c d h = Char-path c d (ground arith)

pub code_refl : (c : Char) → (code c =ℕ code c) ≡ true
code_refl c = ground arith

pub &&-true : (a b : Bool) → (a && b) ≡ true → (a ≡ true) × (b ≡ true)
&&-true a b h = ground arith

pub ||-true : (a b : Bool) → (a || b) ≡ true → (a ≡ true) ⊎ (b ≡ true)
||-true a b h = ground arith

pub has_prefix-append : (p s : String) → has_prefix (p ++ s) p ≡ true
unfolding has_prefix
has_prefix-append [] s = refl
has_prefix-append (c ∷ p) s =
    rw (cons-append c p s) (ground (arith, code_refl c, has_prefix-append p s))

drop_prefix-append : (p s : String) → drop_prefix (p ++ s) p ≡ s
unfolding drop_prefix
drop_prefix-append [] s = nil-append s
drop_prefix-append (c ∷ p) s = rw (cons-append c p s) (drop_prefix-append p s)

-- A text that has a prefix is the prefix and the rest.
append-drop_prefix : (s p : String) → has_prefix s p ≡ true → s ≡ p ++ drop_prefix s p
unfolding has_prefix drop_prefix
append-drop_prefix s [] h = sym (nil-append s)
append-drop_prefix [] (c ∷ p) h = cc
append-drop_prefix (d ∷ s) (c ∷ p) h =
    let e : d ≡ c = code_eq d c (&&-true (code d =ℕ code c) (has_prefix s p) h).0 in
    rw cons-append
      (cc (e, append-drop_prefix s p (&&-true (code d =ℕ code c) (has_prefix s p) h).1))

pub has_prefix→append : (s p : String) → has_prefix s p ≡ true → s ≡ p ++ trim_prefix s p
unfolding trim_prefix
has_prefix→append s p h = rw h (append-drop_prefix s p h)

pub trim_prefix-append : (p s : String) → trim_prefix (p ++ s) p ≡ s
unfolding trim_prefix
trim_prefix-append p s = rw (has_prefix-append p s) (drop_prefix-append p s)

has_suffix_self : (p : String) → has_suffix p p ≡ true
unfolding has_suffix
has_suffix_self [] = refl
has_suffix_self (c ∷ p) = ground (arith, eq_refl (c ∷ p))

pub has_suffix-append : (s p : String) → has_suffix (s ++ p) p ≡ true
unfolding has_suffix
has_suffix-append [] p = rw (nil-append p) (has_suffix_self p)
has_suffix-append (c ∷ s) p = rw (cons-append c s p) (ground (arith, has_suffix-append s p))

-- A text that has a suffix is the rest and the suffix.
pub has_suffix→append : (s p : String) → has_suffix s p ≡ true → s ≡ trim_suffix s p ++ p
unfolding has_suffix trim_suffix
has_suffix→append [] p h = rw nil-append ((eq_iff [] p).0 h)
has_suffix→append (c ∷ s) p h = elim (Bool-cases ((c ∷ s) == p)) [
  | inl e ↦ rw (e, nil-append) ((eq_iff (c ∷ s) p).0 e)
  | inr e ↦ rw (e, cons-append) (ap (λ t. c ∷ t) (has_suffix→append s p (ground (arith, e))))
]

-- A text is not longer than itself.
cons-append_ne : (c : Char) (s p : String) → ((c ∷ (s ++ p)) == p) ≡ false
cons-append_ne c s p = elim (Bool-cases ((c ∷ (s ++ p)) == p)) [
  | inl e ↦ absurd (
      omega (
        arith,
        ap count ((eq_iff (c ∷ (s ++ p)) p).0 e),
        length-cons c (s ++ p),
        length-append s p,
      ))
  | inr e ↦ e
]

trim_suffix_self : (p : String) → trim_suffix p p ≡ []
unfolding trim_suffix
trim_suffix_self [] = refl
trim_suffix_self (c ∷ p) = rw (eq_refl (c ∷ p))

pub trim_suffix-append : (s p : String) → trim_suffix (s ++ p) p ≡ s
unfolding trim_suffix
trim_suffix-append [] p = rw (nil-append p) (trim_suffix_self p)
trim_suffix-append (c ∷ s) p =
    rw (cons-append c s p, cons-append_ne c s p) (ap (λ t. c ∷ t) (trim_suffix-append s p))

has_infix-prefix : (s t : String) → has_infix (s ++ t) s ≡ true
unfolding has_infix
has_infix-prefix [] t = rw nil-append (has_infix_nil t)
  where
    has_infix_nil : (t : String) → has_infix t [] ≡ true
    has_infix_nil [] = refl
    has_infix_nil (d ∷ t) = refl
has_infix-prefix (c ∷ s) t =
    rw (cons-append c s t) (ground (arith, code_refl c, has_prefix-append s t))

pub has_infix-append : (a s b : String) → has_infix (a ++ (s ++ b)) s ≡ true
unfolding has_infix
has_infix-append [] s b = rw nil-append (has_infix-prefix s b)
has_infix-append (c ∷ a) s b =
    rw (cons-append c a (s ++ b)) (ground (arith, has_infix-append a s b))

-- A text that contains another is what stands before it, itself, and what stands behind it.
pub has_infix→append :
    (t s : String) → has_infix t s ≡ true → (a : String) × (b : String) × (t ≡ a ++ (s ++ b))
unfolding has_infix
has_infix→append [] s h = ([], drop_prefix [] s, rw nil-append (append-drop_prefix [] s h))
has_infix→append (c ∷ t) s h = elim (||-true _ _ h) [
  | inl e ↦ ([], drop_prefix (c ∷ t) s, rw nil-append (append-drop_prefix (c ∷ t) s e))
  | inr e ↦ let (a, b, q) = has_infix→append t s e in (c ∷ a, b, rw cons-append (ap (λ x. c ∷ x) q))
]

abbrev star : Char
star = "*"

star-append : (t : String) → "*" ++ t ≡ star ∷ t
star-append t = cons-append star [] t ∙ ap (λ u. star ∷ u) (nil-append t)

-- A text behind a star ends with a star itself, or it is empty.
pub has_suffix-star :
    (y : String) → has_suffix ("*" ++ y) "*" ≡ true → ("*" ++ y ≡ "*") ⊎ (has_suffix y "*" ≡ true)
unfolding has_suffix
has_suffix-star y h = elim (||-true _ _ (rw (star-append y) at h)) [
  | inl e ↦ inl ((eq_iff ("*" ++ y) "*").0 (rw (star-append y) e))
  | inr e ↦ inr e
]
