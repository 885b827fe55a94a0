-- ===== src/Effect/Settles.antt =====
-- Calls that go through: they return, and without an error.
use s3_operator.Prelude.{◌≡◌, none}
use s3_operator.Effect.{
  Error, Result, ok, err, Exit, returned, panicked, Eff, pure, attempt, Outcome,
}
use s3_operator.Effect.Post.{Holds, Post, Sound}
use s3_operator.Effect.Returns.{Ends, Returns, Returns-handle}

module _ {W A : Type 0} where
  -- A result that is no error, with a value of which `P` holds.
  abbrev pub OkWith : (A → Type 0) → Result A → W → Type 0
  OkWith P (ok a) w = P a
  OkWith P (err e) w = ⊥

  abbrev pub Yields : (A → Type 0) → Eff W (Result A) → Type 0
  Yields P m = (w : W) → Returns (OkWith P) m w

-- A handler that ends without an error.
abbrev pub Settles : {W : Type 0} → Eff W Outcome → Type 0
Settles m = (w : _) → Returns (λ a _. a.error ≡ none) m w

module _ {W A B : Type 0} where
  pub Yields-attempt :
      {P : A → Type 0} {Q : B → Type 0} (m : Eff W (Result A)) (h : Error → Eff W (Result B))
      (k : A → Eff W (Result B))
      → Yields P m
      → ((a : A) → P a → Yields Q (k a))
      → Yields Q (attempt m h k)
  Yields-attempt {P} m h k goes then w =
      Returns-handle (OkWith P) m h k w (goes w) (λ e v bad. absurd bad) (λ a v p. then a p v)

module _ {W A : Type 0} where
  pub Yields-pure : {P : A → Type 0} (a : A) → P a → Yields P (pure {W = W} (ok a))
  Yields-pure a p w = record { at = p }

  pub Settles-attempt :
      {P : A → Type 0} (m : Eff W (Result A)) (h : Error → Eff W Outcome) (k : A → Eff W Outcome)
      → Yields P m
      → ((a : A) → P a → Settles (k a))
      → Settles (attempt m h k)
  Settles-attempt {P} m h k goes then w =
      Returns-handle (OkWith P) m h k w (goes w) (λ e v bad. absurd bad) (λ a v p. then a p v)

module _ {W : Type 0} (G : W → Type 0) where
  Ends-Sound :
      (x : Exit Outcome × W)
      → Ends (λ a _. a.error ≡ none) x
      → Holds (Sound G) x
      → Ends (λ a v. (a.error ≡ none) × G v) x
  Ends-Sound (returned a, v) fine h = (fine, h fine)
  Ends-Sound (panicked, v) fine h = fine

module _ {W : Type 0} {G : W → Type 0} where
  -- What holds if there is no error, holds where there is none.
  pub Returns-Sound :
      (m : Eff W Outcome) (w : W)
      → Returns (λ a _. a.error ≡ none) m w
      → Post (Sound G) m w
      → Returns (λ a v. (a.error ≡ none) × G v) m w
  Returns-Sound m w fine h = record { at = Ends-Sound G (m w) fine.at h.at }
