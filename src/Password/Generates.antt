-- ===== src/Password/Generates.antt =====
-- The generator with repeats allowed, as the operator calls it: it ends, and what it returns has
-- the length that was asked for and characters of the alphabet only.
use Prim.Native.Char.{Char}
use Prim.Native.String.{[], ◌∷◌}
use s3_operator.Prelude.{
  ℕ, zero, suc, ◌+◌, ◌≤◌, ◌<◌, String, Bool, true, ◌==◌, ◌≡◌, refl, ap, Option, some, arith,
  Bool-cases, inl, inr, eq_iff,
}
use s3_operator.Effect.Post.{OnOk}
use s3_operator.Effect.Returns.{Returns, Returns-attempt}
use s3_operator.Cluster.{RandInt}
use s3_operator.Password.{
  new_generator, len, char_at, insert_at, in_front, random_element, random_insert, generate_loop,
  generate_with, generate,
}

-- What crypto/rand documents of `Int`: for a positive bound it returns a number below it, or the
-- error of the reader.
pub record IsRandom {W : Type 0} (rand_int : RandInt W) : Type 0 where
  pub draws : (m : ℕ) (w : W) → 0 < m → Returns (OnOk (λ n _. n < m)) (rand_int m) w

-- The character is one of the text.
abbrev pub OccursIn : String → Char → Type 0
OccursIn choices c = (i : ℕ) × (char_at choices i ≡ some c)

abbrev pub Chars : (Char → Type 0) → String → Type 0
Chars P [] = Unit
Chars P (c ∷ s) = P c × Chars P s

-- The generator has returned a text of that length over that alphabet.
abbrev pub IsPassword : String → ℕ → Option String → Type 0
IsPassword choices n o = (s : String) × (o ≡ some s) × (len s ≡ n) × Chars (OccursIn choices) s

char_at-some : (s : String) (i : ℕ) → i < len s → (c : Char) × (char_at s i ≡ some c)
unfolding char_at len
char_at-some [] i h = absurd (omega arith)
char_at-some (c ∷ s) zero h = (c, refl)
char_at-some (c ∷ s) (suc i) h = char_at-some s i (omega arith)

insert_at-some :
    (P : Char → Type 0) (s : String) (i : ℕ) (c : Char)
    → i ≤ len s
    → P c
    → Chars P s
    → (t : String) × (insert_at s i c ≡ some t) × (len t ≡ suc (len s)) × Chars P t
unfolding insert_at len
insert_at-some P s zero c h pc ps = (c ∷ s, refl, refl, (pc, ps))
insert_at-some P [] (suc i) c h pc ps = absurd (omega arith)
insert_at-some P (d ∷ s) (suc i) c h pc ps =
    let (t, e, l, q) = insert_at-some P s i c (omega arith) pc ps.1 in
    (d ∷ t, ap (in_front d) e, ap suc l, (ps.0, q))

module _ {W : Type 0} {rand_int : RandInt W} (random : IsRandom rand_int) where
  random_element-OccursIn :
      (choices : String) (w : W)
      → 0 < len choices
      → Returns (OnOk (λ c _. OccursIn choices c)) (random_element rand_int choices) w
  unfolding random_element
  random_element-OccursIn choices w h =
      Returns-attempt {P = λ n _. n < len choices} _ _ _ w (random.draws (len choices) w h)
        (λ e v. record { at = tt })
        λ n v below. let (c, e) = char_at-some choices n below in rw e (record { at = (n, e) })

  -- One more character of the alphabet.
  abbrev Longer : String → String → String → W → Type 0
  Longer choices s t _ = (len t ≡ suc (len s)) × Chars (OccursIn choices) t

  random_insert-Longer :
      (choices s : String) (c : Char) (w : W)
      → OccursIn choices c
      → Chars (OccursIn choices) s
      → Returns (OnOk (Longer choices s)) (random_insert rand_int s c) w
  unfolding random_insert
  random_insert-Longer choices s c w occurs chars = elim (Bool-cases (s == "")) [
    | inl e ↦ rw e (record { at = (rw ((eq_iff s "").0 e) (unfold len in refl), (occurs, tt)) })
    | inr e ↦ rw e (
        Returns-attempt {P = λ n _. n < len s + 1} _ _ _ w
          (random.draws (len s + 1) w (omega arith)) (λ x v. record { at = tt })
          λ n v below.
            let (t, q, l, cs) =
              insert_at-some (OccursIn choices) s n c (omega arith) occurs chars in
            rw q (record { at = (l, cs) }))
  ]

  generate_loop-IsPassword :
      (fuel : ℕ) (choices : String) (length n : ℕ) (s : String) (w : W)
      → length ≤ fuel
      → n ≡ length + len s
      → 0 < len choices
      → Chars (OccursIn choices) s
      → Returns
          (OnOk (λ o _. IsPassword choices n o))
          (generate_loop rand_int fuel choices true length s)
          w
  unfolding generate_loop
  generate_loop-IsPassword fuel choices zero n s w enough total some_choice chars = record {
    at = (s, refl, omega arith, chars);
  }
  generate_loop-IsPassword zero choices (suc length) n s w enough total some_choice chars =
      absurd (omega arith)
  generate_loop-IsPassword (suc fuel) choices (suc length) n s w enough total some_choice chars =
      Returns-attempt {P = λ c _. OccursIn choices c} _ _ _ w
        (random_element-OccursIn choices w some_choice) (λ e v. record { at = tt })
        λ c v occurs.
          Returns-attempt {P = Longer choices s} _ _ _ v
            (random_insert-Longer choices s c v occurs chars) (λ e u. record { at = tt })
            λ t u (longer, cs).
              generate_loop-IsPassword fuel choices length n t u (omega arith) (omega arith)
                some_choice cs

-- The alphabet of the operator's secret keys.
abbrev pub alphanumeric : String
alphanumeric = "0123456789ABCDEFGHIJKLMNOPQRSTUVWXYZabcdefghijklmnopqrstuvwxyz"

-- With a random source that returns a number below the bound, or an error,
-- `PasswordGenerator.Generate`, whatever its flags, returns: an error of the random source, or a
-- text of the length that was asked for, of which every character is a digit or a letter.
pub generate-IsPassword :
    {W : Type 0} {rand_int : RandInt W}
    → IsRandom rand_int
    → (length : ℕ) (use_letters use_special use_num : Bool) (w : W)
    → Returns
        (OnOk (λ o _. IsPassword alphanumeric length o))
        (generate rand_int length use_letters use_special use_num)
        w
unfolding generate generate_with new_generator len
generate-IsPassword random length use_letters use_special use_num w =
    generate_loop-IsPassword random length alphanumeric length length "" w (omega arith)
      (omega arith) (omega arith) tt
