-- ===== src/Effect/Closed.antt =====
-- What holds of a handler because it holds of each call in it.
use s3_operator.Effect.{Error, Result, ok, err, Eff, pure, panic, ◌>>=◌, handle, attempt}
use s3_operator.Effect.Leaves.{Leaves, Leaves-bind, Leaves-pure, Leaves-panic}

-- A property of effects that sequencing keeps.
pub record IsClosed {W : Type 0} (K : (A : Type 0) → Eff W A → Type 0) : Type 1 where
  pub pure_lem : {A : Type 0} → (a : A) → K A (pure a)
  pub panic_lem : (A : Type 0) → K A panic
  pub bind_lem :
      {A B : Type 0}
      → (m : Eff W A) (f : A → Eff W B) → K A m
      → ((a : A) → K B (f a))
      → K B (m >>= f)

module _ {W : Type 0} {K : (A : Type 0) → Eff W A → Type 0} (closed : IsClosed K)
    {A B : Type 0} where
  handle-Closed :
      (h : Error → Eff W B) (k : A → Eff W B)
      → ((e : Error) → K B (h e))
      → ((a : A) → K B (k a))
      → (x : Result A) → K B (handle x h k)
  handle-Closed h k hh hk (ok a) = hk a
  handle-Closed h k hh hk (err e) = hh e

  pub attempt-Closed :
      (m : Eff W (Result A)) (h : Error → Eff W B) (k : A → Eff W B)
      → K (Result A) m
      → ((e : Error) → K B (h e))
      → ((a : A) → K B (k a))
      → K B (attempt m h k)
  unfolding attempt
  attempt-Closed m h k hm hh hk = closed.bind_lem m _ hm (handle-Closed h k hh hk)

module _ {W V : Type 0} (view : W → V) where
  pub Leaves-IsClosed : IsClosed (λ A m. Leaves view m)
  Leaves-IsClosed = record {
    pure_lem = λ a. Leaves-pure a;
    panic_lem = λ A. Leaves-panic;
    bind_lem = λ m f hm hf. Leaves-bind m f hm hf;
  }
