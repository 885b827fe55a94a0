-- ===== src/Effect.antt =====
-- Effectful Go code. `W` is everything outside the process: the Kubernetes API server and the S3
-- backends. A call takes the world as it finds it and leaves a new one; what other processes do
-- meanwhile is part of what a call does to the world. A panic ends the handler.
pub mod Post
pub mod Returns
pub mod Leaves
pub mod Settles
pub mod Closed
pub mod Keeps
use s3_operator.Prelude.{ℕ, Bool, false, Option, none, some, String, ◌≡◌}

-- A Go error, by what the code asks of one: apierrors.IsNotFound, the Code and StatusCode of
-- minio's and madmin's ToErrorResponse, and its text.
pub record Error : Type 0 where
  pub is_not_found : Bool
  pub code : String
  pub status_code : ℕ
  pub text : String

-- `fmt.Errorf` without `%w`.
abbrev pub errorf : String → Error
errorf s = record { is_not_found = false; code = ""; status_code = 0; text = s }

-- A Go result `(value, error)` whose value is read only if the error is nil.
pub data Result {ℓ} (A : Type ℓ) : Type ℓ where
  ok : A → Result A
  err : Error → Result A

pub ok_injective : {A : Type 0} {a b : A} → ok a ≡ ok b → a ≡ b
ok_injective h = cc

-- The error alone: nil is `none`.
abbrev pub to_option : Result (Unit {0}) → Option Error
to_option (ok _) = none
to_option (err e) = some e

pub data Exit {ℓ} (A : Type ℓ) : Type ℓ where
  returned : A → Exit A
  panicked : Exit A

pub returned_injective : {A : Type 0} {a b : A} → returned a ≡ returned b → a ≡ b
returned_injective h = cc

abbrev pub Eff : Type 0 → Type 0 → Type 0
Eff W A = W → Exit A × W

module _ {W A : Type 0} where
  abbrev pub pure : A → Eff W A
  pure a w = (returned a, w)

  abbrev pub panic : Eff W A
  panic w = (panicked, w)

module _ {W A B : Type 0} where
  abbrev pub continue : Exit A × W → (A → Eff W B) → Exit B × W
  continue (returned a, w) f = f a w
  continue (panicked, w) f = (panicked, w)

  infixl 5 ◌>>=◌
  unfoldable pub ◌>>=◌ : Eff W A → (A → Eff W B) → Eff W B
  ◌>>=◌ m f w = continue (m w) f

  abbrev pub handle : Result A → (Error → Eff W B) → (A → Eff W B) → Eff W B
  handle (ok a) h k = k a
  handle (err e) h k = h e

module _ {W A B : Type 0} where
  -- `a, err := m; if err != nil { return h }; k`
  unfoldable pub attempt : Eff W (Result A) → (Error → Eff W B) → (A → Eff W B) → Eff W B
  attempt m h k = m >>= λ r. handle r h k

-- What a reconciler returns: controller-runtime's `Result` and the error.
pub record Outcome : Type 0 where
  pub requeue : Bool
  pub requeue_after : ℕ
  pub error : Option Error

-- `ctrl.Result{}, nil`
abbrev pub done : Outcome
done = record { requeue = false; requeue_after = 0; error = none }

-- `ctrl.Result{}, err`
abbrev pub failed : Error → Outcome
failed e = record { requeue = false; requeue_after = 0; error = some e }
