-- ===== src/Password.antt =====
-- internal/helpers/password_generator.go: the generator of secret keys. The random numbers come
-- from crypto/rand, through the parameter `rand_int`. All texts here are ASCII.
pub mod Generates
pub mod Quiet
use Prim.Native.Char.{Char}
use Prim.Native.String.{[], ◌∷◌}
use s3_operator.Prelude.{
  ℕ, zero, suc, ◌+◌, String, ◌++◌, Bool, true, false, not, ◌&&◌, ◌==◌, ◌=ℕ◌, Option, none, some,
  if◌then◌else◌,
}
use s3_operator.Effect.{Result, ok, err, Eff, pure, panic, ◌>>=◌, attempt}
use s3_operator.Cluster.{RandInt}
use s3_operator.Text.{has_infix}

abbrev pub lower_letters : String
lower_letters = "abcdefghijklmnopqrstuvwxyz"

abbrev pub upper_letters : String
upper_letters = "ABCDEFGHIJKLMNOPQRSTUVWXYZ"

abbrev pub digits : String
digits = "0123456789"

abbrev pub symbols : String
symbols = "~!@#$%^&*()_+`-={}|[]\\:\"<>?,./"

-- The fields of `Generator` but for the reader.
pub record Generator : Type 0 where
  pub lower_letters : String
  pub upper_letters : String
  pub digits : String
  pub symbols : String

abbrev or_default : String → String → String
or_default s d = if s == "" then d else s

-- `NewGenerator`, of a `GeneratorInput`; a nil one has four empty texts.
unfoldable pub new_generator : Generator → Generator
new_generator i = record {
  lower_letters = or_default i.lower_letters lower_letters;
  upper_letters = or_default i.upper_letters upper_letters;
  digits = or_default i.digits digits;
  symbols = or_default i.symbols symbols;
}

abbrev pub nil_input : Generator
nil_input = record { lower_letters = ""; upper_letters = ""; digits = ""; symbols = "" }

-- The number of characters.
unfoldable pub len : String → ℕ
len [] = zero
len (c ∷ s) = suc (len s)

-- `s[i]`; out of range Go panics.
unfoldable pub char_at : String → ℕ → Option Char
char_at [] i = none
char_at (c ∷ s) zero = some c
char_at (c ∷ s) (suc i) = char_at s i

abbrev pub in_front : Char → Option String → Option String
in_front c none = none
in_front c (some t) = some (c ∷ t)

-- `s[0:i] + val + s[i:]`, of a single character; out of range Go panics.
unfoldable pub insert_at : String → ℕ → Char → Option String
insert_at s zero val = some (val ∷ s)
insert_at [] (suc i) val = none
insert_at (c ∷ s) (suc i) val = in_front c (insert_at s i val)

abbrev pub returned_or_panic : {W A : Type 0} → Option A → Eff W (Result A)
returned_or_panic none = panic
returned_or_panic (some a) = pure (ok a)

module _ {W : Type 0} (rand_int : RandInt W) where
  -- `randomElement`
  unfoldable pub random_element : String → Eff W (Result Char)
  random_element s =
      attempt (rand_int (len s)) (λ e. pure (err e)) λ n. returned_or_panic (char_at s n)

  -- `randomInsert`
  unfoldable pub random_insert : String → Char → Eff W (Result String)
  random_insert s val =
      if s == ""
      then pure (ok (val ∷ []))
      else attempt (rand_int (len s + 1)) (λ e. pure (err e))
          (λ n. returned_or_panic (insert_at s n val))

  -- The loop of `Generator.Generate`: `length` characters are still to come. A character that may
  -- not be repeated is drawn again, which takes one of the `fuel`; `none` means that it ran out.
  unfoldable pub generate_loop : ℕ → String → Bool → ℕ → String → Eff W (Result (Option String))
  generate_loop fuel choices allow_repeat zero result = pure (ok (some result))
  generate_loop zero choices allow_repeat (suc length) result = pure (ok none)
  generate_loop (suc fuel) choices allow_repeat (suc length) result =
      attempt (random_element choices) (λ e. pure (err e))
        λ ch.
          if not allow_repeat && has_infix result (ch ∷ [])
          then generate_loop fuel choices allow_repeat (suc length) result
          else attempt (random_insert result ch) (λ e. pure (err e))
              λ result. generate_loop fuel choices allow_repeat length result

  -- The alphabet that the flags choose.
  abbrev pub choices_of : Generator → Bool → Bool → Bool → Bool → String
  choices_of g use_digit use_symbol use_upper use_lower =
      let choices =
        (if use_digit then g.digits else "")
        ++ ((if use_symbol then g.symbols else "")
            ++ ((if use_upper then g.upper_letters else "")
                ++ (if use_lower then g.lower_letters else ""))) in
      if len choices =ℕ 0 then g.lower_letters else choices

  -- `Generator.Generate`, with fuel for the loop.
  unfoldable pub generate_with :
      ℕ → Generator → ℕ → Bool → Bool → Bool → Bool → Bool → Eff W (Result (Option String))
  generate_with fuel g length use_digit use_symbol use_upper use_lower allow_repeat =
      generate_loop fuel (choices_of g use_digit use_symbol use_upper use_lower) allow_repeat length
        ""

  -- `PasswordGenerator.Generate`, which does not read its three flags.
  unfoldable pub generate : ℕ → Bool → Bool → Bool → Eff W (Result (Option String))
  generate length use_letters use_special use_num =
      generate_with length (new_generator nil_input) length true false true true true
