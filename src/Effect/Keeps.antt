-- ===== src/Effect/Keeps.antt =====
-- Invariants of the world: they hold behind a call however it ends, with a value or with a panic.
use s3_operator.Effect.{
  Error, Result, ok, err, Eff, Exit, returned, panicked, ◌>>=◌, continue, handle, attempt,
}
use s3_operator.Effect.Post.{OnOk, Post, Holds}
use s3_operator.Effect.Closed.{IsClosed}

module _ {W : Type 0} (I : W → Type 0) where
  -- The call keeps the invariant.
  abbrev pub Keeps : (A : Type 0) → Eff W A → Type 0
  Keeps A m = (w : W) → I w → I (m w).1

module _ {W A B : Type 0} {I J : W → Type 0} {Q : A → W → Type 0} where
  continue-Keeps :
      (x : Exit A × W) (f : A → Eff W B)
      → ((v : W) → I v → J v)
      → I x.1
      → Holds Q x
      → ((a : A) (v : W) → I v → Q a v → J (f a v).1)
      → J (continue x f).1
  continue-Keeps (returned a, v) f down i q h = h a v i q
  continue-Keeps (panicked, v) f down i q h = down v i

  -- `J` holds behind a bind, if `I` holds behind its first call, `J` behind what follows, and `I`
  -- is the stronger.
  pub bind-Keeps :
      (m : Eff W A) (f : A → Eff W B) (w : W)
      → ((v : W) → I v → J v)
      → I (m w).1
      → Post Q m w
      → ((a : A) (v : W) → I v → Q a v → J (f a v).1)
      → J ((m >>= f) w).1
  unfolding ◌>>=◌
  bind-Keeps m f w down i q h = continue-Keeps (m w) f down i q.at h

module _ {W A B : Type 0} {I : W → Type 0} (J : W → Type 0) {Q : A → W → Type 0} where
  handle-Keeps :
      (h : Error → Eff W B) (k : A → Eff W B) (x : Result A) (v : W)
      → I v
      → OnOk Q x v
      → ((e : Error) (v : W) → I v → J (h e v).1)
      → ((a : A) (v : W) → I v → Q a v → J (k a v).1)
      → J (handle x h k v).1
  handle-Keeps h k (ok a) v i q hh hk = hk a v i q
  handle-Keeps h k (err e) v i q hh hk = hh e v i

module _ {W A B : Type 0} {I J : W → Type 0} {Q : A → W → Type 0} where
  pub attempt-Keeps :
      (m : Eff W (Result A)) (h : Error → Eff W B) (k : A → Eff W B) (w : W)
      → ((v : W) → I v → J v)
      → I (m w).1
      → Post (OnOk Q) m w
      → ((e : Error) (v : W) → I v → J (h e v).1)
      → ((a : A) (v : W) → I v → Q a v → J (k a v).1)
      → J (attempt m h k w).1
  unfolding attempt
  attempt-Keeps m h k w down i q hh hk =
      bind-Keeps m (λ x. handle x h k) w down i q (λ x v i' q'. handle-Keeps J h k x v i' q' hh hk)

module _ {W : Type 0} (I : W → Type 0) where
  continue_kept :
      {A B : Type 0} (x : Exit A × W) (f : A → Eff W B)
      → I x.1
      → ((a : A) → Keeps I B (f a))
      → I (continue x f).1
  continue_kept (returned a, v) f i h = h a v i
  continue_kept (panicked, v) f i h = i

  bind_kept :
      {A B : Type 0} (m : Eff W A) (f : A → Eff W B)
      → Keeps I A m
      → ((a : A) → Keeps I B (f a))
      → Keeps I B (m >>= f)
  unfolding ◌>>=◌
  bind_kept m f hm hf w i = continue_kept (m w) f (hm w i) hf

  pub Keeps-IsClosed : IsClosed (Keeps I)
  Keeps-IsClosed = record {
    pure_lem = λ a w i. i;
    panic_lem = λ A w i. i;
    bind_lem = λ m f hm hf. bind_kept m f hm hf;
  }
