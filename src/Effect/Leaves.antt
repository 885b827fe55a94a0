-- ===== src/Effect/Leaves.antt =====
-- Calls that do not touch what `view` shows of the world.
use s3_operator.Prelude.{◌≡◌, refl, ◌∙◌}
use s3_operator.Effect.{Error, Result, ok, err, Eff, pure, panic, ◌>>=◌, handle, attempt}
use s3_operator.Effect.Post.{Post, Post-bind, Post-weaken}

module _ {W V : Type 0} (view : W → V) where
  -- The call leaves the view alone, whatever it returns.
  abbrev pub Leaves : {A : Type 0} → Eff W A → Type 0
  Leaves m = (w : W) → Post (λ _ w'. view w' ≡ view w) m w

module _ {W V : Type 0} {view : W → V} {A B : Type 0} where
  pub Leaves-bind :
      (m : Eff W A) (f : A → Eff W B)
      → Leaves view m
      → ((a : A) → Leaves view (f a))
      → Leaves view (m >>= f)
  Leaves-bind m f hm hf w =
      Post-bind {P = λ _ v. view v ≡ view w} m f w (hm w)
        λ a v e. Post-weaken _ v (λ _ u e'. e' ∙ e) (hf a v)

  handle-Leaves :
      (x : Result A) (h : Error → Eff W B) (k : A → Eff W B)
      → ((e : Error) → Leaves view (h e))
      → ((a : A) → Leaves view (k a))
      → Leaves view (handle x h k)
  handle-Leaves (ok a) h k hh hk = hk a
  handle-Leaves (err e) h k hh hk = hh e

module _ {W V : Type 0} {view : W → V} {A B : Type 0} where
  pub Leaves-attempt :
      (m : Eff W (Result A)) (h : Error → Eff W B) (k : A → Eff W B)
      → Leaves view m
      → ((e : Error) → Leaves view (h e))
      → ((a : A) → Leaves view (k a))
      → Leaves view (attempt m h k)
  unfolding attempt
  Leaves-attempt m h k hm hh hk =
      Leaves-bind m (λ x. handle x h k) hm (λ x. handle-Leaves x h k hh hk)

module _ {W V : Type 0} {view : W → V} {A : Type 0} where
  pub Leaves-pure : (a : A) → Leaves view (pure a)
  Leaves-pure a w = record { at = refl }

  pub Leaves-panic : Leaves view (panic {A = A})
  Leaves-panic w = record { at = tt }
