-- ===== src/Password/Quiet.antt =====
-- The generator touches nothing but the random source.
use s3_operator.Prelude.{
  ℕ, zero, suc, String, Bool, not, ◌&&◌, ◌==◌, Option, none, some, Bool-cases, inl, inr,
}
use Prim.Native.Char.{Char}
use Prim.Native.String.{[], ◌∷◌}
use s3_operator.Effect.Leaves.{Leaves, Leaves-attempt, Leaves-pure, Leaves-panic}
use s3_operator.Text.{has_infix}
use s3_operator.Cluster.{RandInt}
use s3_operator.Password.{
  returned_or_panic, random_element, random_insert, generate_loop, generate_with, generate,
}

module _ {W V : Type 0} {view : W → V} {rand_int : RandInt W}
    (quiet : (m : ℕ) → Leaves view (rand_int m)) where
  returned_or_panic-Leaves : {A : Type 0} (o : Option A) → Leaves view (returned_or_panic o)
  returned_or_panic-Leaves none = Leaves-panic
  returned_or_panic-Leaves (some a) = Leaves-pure _

  random_element-Leaves : (s : String) → Leaves view (random_element rand_int s)
  unfolding random_element
  random_element-Leaves s =
      Leaves-attempt _ _ _ (quiet _) (λ e. Leaves-pure _) (λ n. returned_or_panic-Leaves _)

  random_insert-Leaves : (s : String) (c : Char) → Leaves view (random_insert rand_int s c)
  unfolding random_insert
  random_insert-Leaves s c = elim (Bool-cases (s == "")) [
    | inl e ↦ rw e (Leaves-pure _)
    | inr e ↦
        rw e (Leaves-attempt _ _ _ (quiet _) (λ e. Leaves-pure _) (λ n. returned_or_panic-Leaves _))
  ]

  generate_loop-Leaves :
      (fuel : ℕ) (choices : String) (allow_repeat : Bool) (length : ℕ) (s : String)
      → Leaves view (generate_loop rand_int fuel choices allow_repeat length s)
  unfolding generate_loop
  generate_loop-Leaves fuel choices allow_repeat zero s = Leaves-pure _
  generate_loop-Leaves zero choices allow_repeat (suc length) s = Leaves-pure _
  generate_loop-Leaves (suc fuel) choices allow_repeat (suc length) s =
      Leaves-attempt _ _ _ (random_element-Leaves choices) (λ e. Leaves-pure _)
        λ ch. elim (Bool-cases (not allow_repeat && has_infix s (ch ∷ []))) [
          | inl e ↦ rw e (generate_loop-Leaves fuel choices allow_repeat (suc length) s)
          | inr e ↦ rw e (
              Leaves-attempt _ _ _ (random_insert-Leaves s ch) (λ e. Leaves-pure _)
                (λ t. generate_loop-Leaves fuel choices allow_repeat length t))
        ]

  pub generate-Leaves :
      (length : ℕ) (use_letters use_special use_num : Bool)
      → Leaves view (generate rand_int length use_letters use_special use_num)
  unfolding generate generate_with
  generate-Leaves length use_letters use_special use_num = generate_loop-Leaves _ _ _ _ _
