-- ===== src/Effect/Returns.antt =====
-- Total reasoning: a call returns, without a panic, and `Q` holds of what it returns and leaves.
use s3_operator.Effect.{
  Error, Result, ok, err, Exit, returned, panicked, Eff, continue, ◌>>=◌, handle, attempt,
}
use s3_operator.Effect.Post.{OnOk, Holds, Post}

abbrev pub Ends : {W A : Type 0} → (A → W → Type 0) → Exit A × W → Type 0
Ends Q (returned a, w) = Q a w
Ends Q (panicked, w) = ⊥

pub record Returns {W A : Type 0} (Q : A → W → Type 0) (m : Eff W A) (w : W) : Type 0 where
  pub at : Ends Q (m w)

module _ {W A : Type 0} {P Q : A → W → Type 0} where
  Ends-weaken : (x : Exit A × W) → ((a : A) (w : W) → P a w → Q a w) → Ends P x → Ends Q x
  Ends-weaken (returned a, w) f h = f a w h
  Ends-weaken (panicked, w) f h = h

  pub Returns-weaken :
      (m : Eff W A) (w : W) → ((a : A) (w : W) → P a w → Q a w) → Returns P m w → Returns Q m w
  Returns-weaken m w f h = record { at = Ends-weaken (m w) f h.at }

module _ {W A B : Type 0} {P : A → W → Type 0} {Q : B → W → Type 0} where
  Ends-continue :
      (x : Exit A × W) (f : A → Eff W B)
      → Ends P x
      → ((a : A) (w : W) → P a w → Returns Q (f a) w)
      → Ends Q (continue x f)
  Ends-continue (returned a, w) f h k = (k a w h).at
  Ends-continue (panicked, w) f h k = absurd h

  pub Returns-bind :
      (m : Eff W A) (f : A → Eff W B) (w : W)
      → Returns P m w
      → ((a : A) (w : W) → P a w → Returns Q (f a) w)
      → Returns Q (m >>= f) w
  unfolding ◌>>=◌
  Returns-bind m f w h k = record { at = Ends-continue (m w) f h.at k }

  handle-Returns :
      (h : Error → Eff W B) (k : A → Eff W B)
      → ((a : A) (w : W) → P a w → Returns Q (k a) w)
      → ((e : Error) (w : W) → Returns Q (h e) w)
      → (r : Result A) (w : W) → OnOk P r w
      → Returns Q (handle r h k) w
  handle-Returns h k kp hp (ok a) w p = kp a w p
  handle-Returns h k kp hp (err e) w p = hp e w

module _ {W A B : Type 0} {P : A → W → Type 0} {Q : B → W → Type 0} where
  pub Returns-attempt :
      (m : Eff W (Result A)) (h : Error → Eff W B) (k : A → Eff W B) (w : W)
      → Returns (OnOk P) m w
      → ((e : Error) (w : W) → Returns Q (h e) w)
      → ((a : A) (w : W) → P a w → Returns Q (k a) w)
      → Returns Q (attempt m h k) w
  unfolding attempt
  Returns-attempt m h k w p hp kp =
      Returns-bind {P = OnOk P} m (λ r. handle r h k) w p (handle-Returns h k kp hp)

module _ {W A B : Type 0} (R : Result A → W → Type 0) {Q : B → W → Type 0} where
  handle-both :
      (h : Error → Eff W B) (k : A → Eff W B)
      → ((e : Error) (w : W) → R (err e) w → Returns Q (h e) w)
      → ((a : A) (w : W) → R (ok a) w → Returns Q (k a) w)
      → (r : Result A) (w : W) → R r w
      → Returns Q (handle r h k) w
  handle-both h k hp kp (ok a) w p = kp a w p
  handle-both h k hp kp (err e) w p = hp e w p

  -- The rule for `attempt` where the error branch builds on the failed call.
  pub Returns-handle :
      (m : Eff W (Result A)) (h : Error → Eff W B) (k : A → Eff W B) (w : W)
      → Returns R m w
      → ((e : Error) (w : W) → R (err e) w → Returns Q (h e) w)
      → ((a : A) (w : W) → R (ok a) w → Returns Q (k a) w)
      → Returns Q (attempt m h k) w
  unfolding attempt
  Returns-handle m h k w p hp kp =
      Returns-bind {P = R} m (λ r. handle r h k) w p (handle-both h k hp kp)

module _ {W A : Type 0} (Q : A → W → Type 0) where
  Ends→Holds : (x : Exit A × W) → Ends Q x → Holds Q x
  Ends→Holds (returned a, w) h = h
  Ends→Holds (panicked, w) h = tt

module _ {W A : Type 0} {Q : A → W → Type 0} where
  -- What is shown of a call that returns, holds if it returns.
  pub Returns→Post : (m : Eff W A) (w : W) → Returns Q m w → Post Q m w
  Returns→Post m w h = record { at = Ends→Holds Q (m w) h.at }
