-- ===== src/Text/Split.antt =====
-- `strings.Split`: a text without the separator is its only part, a part before a separator is the
-- first of the parts, and the parts of joined texts are the texts.
use Prim.Native.Char.{code, Char}
use Prim.Native.String.{[], ◌∷◌}
use text.Mathlib.TextLemmas.{nil-append, cons-append}
use mathlib.Core.List as L
use s3_operator.Prelude.{ℕ, String, ◌++◌, false, ◌=ℕ◌, ◌≡◌, refl, ap, ◌∙◌, All}
use s3_operator.Text.{has_prefix, has_infix, split, join}
use s3_operator.Text.Laws.{code_refl}

-- No character of the text has the code.
abbrev pub Lacks : String → ℕ → Type 0
Lacks [] sep = Unit
Lacks (c ∷ s) sep = ((code c =ℕ sep) ≡ false) × Lacks s sep

pub split-Lacks : (s : String) (sep : ℕ) → Lacks s sep → split s sep ≡ L.◌∷◌ s L.[]
unfolding split
split-Lacks [] sep h = refl
split-Lacks (c ∷ s) sep h = rw (h.0, split-Lacks s sep h.1)

abbrev slash : Char
slash = "/"

pub slash-append : (t : String) → "/" ++ t ≡ slash ∷ t
slash-append t = cons-append slash [] t ∙ ap (λ u. slash ∷ u) (nil-append t)

-- At any separator.
split-cons :
    (x : Char) (s t : String)
    → Lacks s (code x)
    → split (s ++ (x ∷ t)) (code x) ≡ L.◌∷◌ s (split t (code x))
unfolding split
split-cons x [] t h = rw (nil-append (x ∷ t), code_refl x) refl
split-cons x (c ∷ s) t h = rw (cons-append c s (x ∷ t), h.0, split-cons x s t h.1)

pub split-append :
    (s t : String) → Lacks s b'/' → split (s ++ ("/" ++ t)) b'/' ≡ L.◌∷◌ s (split t b'/')
split-append s t h = rw (slash-append t) (split-cons slash s t h)

abbrev comma : Char
comma = ","

comma-append : (t : String) → "," ++ t ≡ comma ∷ t
comma-append t = cons-append comma [] t ∙ ap (λ u. comma ∷ u) (nil-append t)

-- Splitting undoes joining, of texts without a comma, at least one.
pub split-join :
    (p : String) (ps : L.List String)
    → All (λ q. Lacks q b',') (L.◌∷◌ p ps)
    → split (join (L.◌∷◌ p ps) ",") b',' ≡ L.◌∷◌ p ps
unfolding join
split-join p L.[] h = split-Lacks p b',' h.0
split-join p (L.◌∷◌ q ps) h =
    rw (comma-append (join (L.◌∷◌ q ps) ","))
      (split-cons comma p (join (L.◌∷◌ q ps) ",") h.0 ∙ ap (λ xs. L.◌∷◌ p xs) (split-join q ps h.1))

pub Lacks-has_infix : (s : String) → Lacks s b'/' → has_infix s "/" ≡ false
unfolding has_infix has_prefix
Lacks-has_infix [] h = refl
Lacks-has_infix (c ∷ s) h = rw (h.0, Lacks-has_infix s h.1) refl
