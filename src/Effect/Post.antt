-- ===== src/Effect/Post.antt =====
-- Reasoning about effectful code: what holds of the value and the world that a call leaves.
use s3_operator.Prelude.{Bool, true, ◌≡◌, refl, subst, none}
use s3_operator.Effect.{
  Error, Result, ok, err, Exit, returned, panicked, Eff, pure, continue, ◌>>=◌, handle, attempt,
  Outcome,
}

module _ {W A : Type 0} where
  -- A panic returns nothing, so there is nothing to show of it.
  abbrev pub Holds : (A → W → Type 0) → Exit A × W → Type 0
  Holds Q (returned a, w) = Q a w
  Holds Q (panicked, w) = Unit

  -- Of a result that is no error.
  abbrev pub OnOk : (A → W → Type 0) → Result A → W → Type 0
  OnOk P (ok a) w = P a w
  OnOk P (err e) w = Unit

module _ {W A : Type 0} where
  -- Of a result that is no error, and of an error that `test` holds of.
  abbrev pub Either : (A → W → Type 0) → (Error → Bool) → (W → Type 0) → Result A → W → Type 0
  Either P test Q (ok a) w = P a w
  Either P test Q (err e) w = test e ≡ true → Q w

module _ {W A : Type 0} (P : A → W → Type 0) (Q : W → Type 0) where
  pub Either→OnOk : (test : Error → Bool) (x : Result A) (w : W) → Either P test Q x w → OnOk P x w
  Either→OnOk test (ok a) w h = h
  Either→OnOk test (err e) w h = tt

-- If `m` is called in `w` and returns, `Q` holds of what it returns and of the world it leaves.
pub record Post {W A : Type 0} (Q : A → W → Type 0) (m : Eff W A) (w : W) : Type 0 where
  pub at : Holds Q (m w)

-- If a reconciler returns no error, the world is as it should be.
abbrev pub Sound : {W : Type 0} → (W → Type 0) → Outcome → W → Type 0
Sound G o w = o.error ≡ none → G w

module _ {W A : Type 0} {P Q : A → W → Type 0} where
  Holds-weaken : (x : Exit A × W) → ((a : A) (w : W) → P a w → Q a w) → Holds P x → Holds Q x
  Holds-weaken (returned a, w) f h = f a w h
  Holds-weaken (panicked, w) f h = tt

  pub Post-weaken :
      (m : Eff W A) (w : W) → ((a : A) (w : W) → P a w → Q a w) → Post P m w → Post Q m w
  Post-weaken m w f h = record { at = Holds-weaken (m w) f h.at }

module _ {W A : Type 0} (P Q : A → W → Type 0) where
  Holds-both : (x : Exit A × W) → Holds P x → Holds Q x → Holds (λ a w. P a w × Q a w) x
  Holds-both (returned a, w) p q = (p, q)
  Holds-both (panicked, w) p q = tt

  pub Post-both : (m : Eff W A) (w : W) → Post P m w → Post Q m w → Post (λ a w. P a w × Q a w) m w
  Post-both m w p q = record { at = Holds-both (m w) p.at q.at }

module _ {W A : Type 0} {Q : A → W → Type 0} where
  Holds-always : (x : Exit A × W) → ((a : A) (w : W) → Q a w) → Holds Q x
  Holds-always (returned a, v) f = f a v
  Holds-always (panicked, v) f = tt

  pub Post-always : (m : Eff W A) (w : W) → ((a : A) (w : W) → Q a w) → Post Q m w
  Post-always m w f = record { at = Holds-always (m w) f }

  pub Post-pure : (a : A) (w : W) → Q a w → Post Q (pure a) w
  Post-pure a w q = record { at = q }

module _ {W A B : Type 0} {P : A → W → Type 0} {Q : B → W → Type 0} where
  Holds-continue :
      (x : Exit A × W) (f : A → Eff W B)
      → Holds P x
      → ((a : A) (w : W) → P a w → Post Q (f a) w)
      → Holds Q (continue x f)
  Holds-continue (returned a, w) f h k = (k a w h).at
  Holds-continue (panicked, w) f h k = tt

  -- The rule for a bind.
  pub Post-bind :
      (m : Eff W A) (f : A → Eff W B) (w : W)
      → Post P m w
      → ((a : A) (w : W) → P a w → Post Q (f a) w)
      → Post Q (m >>= f) w
  unfolding ◌>>=◌
  Post-bind m f w h k = record { at = Holds-continue (m w) f h.at k }

  handle-Post :
      (h : Error → Eff W B) (k : A → Eff W B)
      → ((a : A) (w : W) → P a w → Post Q (k a) w)
      → ((e : Error) (w : W) → Post Q (h e) w)
      → (r : Result A) (w : W) → OnOk P r w
      → Post Q (handle r h k) w
  handle-Post h k kp hp (ok a) w p = kp a w p
  handle-Post h k kp hp (err e) w p = hp e w

module _ {W A B : Type 0} {P : A → W → Type 0} {Q : B → W → Type 0} where
  -- The rule for `attempt` where the error branch needs no fact about the failed call.
  pub Post-attempt :
      (m : Eff W (Result A)) (h : Error → Eff W B) (k : A → Eff W B) (w : W)
      → Post (OnOk P) m w
      → ((e : Error) (w : W) → Post Q (h e) w)
      → ((a : A) (w : W) → P a w → Post Q (k a) w)
      → Post Q (attempt m h k) w
  unfolding attempt
  Post-attempt m h k w p hp kp =
      Post-bind {P = OnOk P} m (λ r. handle r h k) w p (handle-Post h k kp hp)

module _ {W A B : Type 0} (R : Result A → W → Type 0) {Q : B → W → Type 0} where
  handle-both :
      (h : Error → Eff W B) (k : A → Eff W B)
      → ((e : Error) (w : W) → R (err e) w → Post Q (h e) w)
      → ((a : A) (w : W) → R (ok a) w → Post Q (k a) w)
      → (r : Result A) (w : W) → R r w
      → Post Q (handle r h k) w
  handle-both h k hp kp (ok a) w p = kp a w p
  handle-both h k hp kp (err e) w p = hp e w p

  -- The rule for `attempt` where the error branch builds on the failed call.
  pub Post-handle :
      (m : Eff W (Result A)) (h : Error → Eff W B) (k : A → Eff W B) (w : W)
      → Post R m w
      → ((e : Error) (w : W) → R (err e) w → Post Q (h e) w)
      → ((a : A) (w : W) → R (ok a) w → Post Q (k a) w)
      → Post Q (attempt m h k) w
  unfolding attempt
  Post-handle m h k w p hp kp = Post-bind {P = R} m (λ r. handle r h k) w p (handle-both h k hp kp)

module _ {W A : Type 0} where
  -- A value that is looked at in the world as it is.
  abbrev pub Finds : Result A → W → A → W → Type 0
  Finds x w a v = (x ≡ ok a) × (v ≡ w)

  pub pure-Finds : (x : Result A) (w : W) → Post (OnOk (Finds x w)) (pure x) w
  pure-Finds (ok a) w = record { at = (refl, refl) }
  pure-Finds (err e) w = record { at = tt }

module _ {W A : Type 0} where
  on_ok_always : (x : Result A) (w : W) → OnOk (λ _ _. Unit) x w
  on_ok_always (ok a) w = tt
  on_ok_always (err e) w = tt

  -- Of a call of which nothing is asked.
  pub Post-any : (m : Eff W (Result A)) (w : W) → Post (OnOk (λ _ _. Unit)) m w
  Post-any m w = Post-always m w on_ok_always

module _ {W A : Type 0} {Q : A → W → Type 0} where
  -- What was shown of a call holds of a run of it.
  pub Post-run :
      (m : Eff W A) (w : W) → Post Q m w → (a : A) (v : W) → m w ≡ (returned a, v) → Q a v
  Post-run m w h a v e = subst (Holds Q) e h.at

module _ {W A : Type 0} {P Q : A → W → Type 0} where
  OnOk-weaken : (x : Result A) (w : W) → ((a : A) (w : W) → P a w → Q a w) → OnOk P x w → OnOk Q x w
  OnOk-weaken (ok a) w f h = f a w h
  OnOk-weaken (err e) w f h = tt

  -- Weakening, of a call without an error.
  pub Post-ok :
      (m : Eff W (Result A)) (w : W)
      → ((a : A) (w : W) → P a w → Q a w)
      → Post (OnOk P) m w
      → Post (OnOk Q) m w
  Post-ok m w f h = Post-weaken m w (λ x v p. OnOk-weaken x v f p) h

module _ {W A B : Type 0} {P : A → W → Type 0} {Q : B → W → Type 0} where
  -- `a, err := m; if err != nil { return err }; return f(a)`
  pub Post-passed :
      (m : Eff W (Result A)) (f : A → B) (w : W)
      → ((a : A) (w : W) → P a w → Q (f a) w)
      → Post (OnOk P) m w
      → Post (OnOk Q) (attempt m (λ e. pure (err e)) (λ a. pure (ok (f a)))) w
  Post-passed m f w h p =
      Post-attempt m _ _ w p (λ e v. record { at = tt }) (λ a v q. record { at = h a v q })

module _ {W A B : Type 0} {P : A → W → Type 0} {Q : B → W → Type 0} where
  -- `return f(m)`
  pub Post-map :
      (m : Eff W A) (f : A → B) (w : W)
      → ((a : A) (w : W) → P a w → Q (f a) w)
      → Post P m w
      → Post Q (m >>= λ a. pure (f a)) w
  Post-map m f w h p = Post-bind m _ w p (λ a v q. record { at = h a v q })

module _ {W A : Type 0} (P Q : A → W → Type 0) where
  OnOk-both : (x : Result A) (w : W) → OnOk P x w → OnOk Q x w → OnOk (λ a w. P a w × Q a w) x w
  OnOk-both (ok a) w p q = (p, q)
  OnOk-both (err e) w p q = tt

module _ {W A : Type 0} {P Q : A → W → Type 0} where
  pub Post-ok_both :
      (m : Eff W (Result A)) (w : W)
      → Post (OnOk P) m w
      → Post (OnOk Q) m w
      → Post (OnOk (λ a w. P a w × Q a w)) m w
  Post-ok_both m w p q =
      Post-weaken m w (λ x v (a, b). OnOk-both P Q x v a b) (Post-both _ _ m w p q)

module _ {W A : Type 0} where
  Holds-exact : (x y : Exit A × W) → x ≡ y → Holds (λ a v. x ≡ (returned a, v)) y
  Holds-exact x (returned a, v) e = e
  Holds-exact x (panicked, v) e = tt

  -- What a call returns and leaves is what it returns and leaves.
  pub Post-exact : (m : Eff W A) (w : W) → Post (λ a v. m w ≡ (returned a, v)) m w
  Post-exact m w = record { at = Holds-exact (m w) (m w) refl }
