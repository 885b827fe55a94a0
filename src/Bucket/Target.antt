-- ===== src/Bucket/Target.antt =====
-- The quota that the fields of a spec ask for: the override, unless that is zero, and the default
-- if it is.
use mathlib.Core.Bool.{false≢true}
use s3_operator.Prelude.{
  true, ◌≡◌, refl, sym, ◌∙◌, ap, some, ℤ, pos, ◌=ℤ◌, =ℤ→eq, Bool-cases, inl, inr,
}
use s3_operator.Api.{Quota}
use s3_operator.Bucket.{quota_to_reset_to}

pub record IsTarget (quota : Quota) (q : ℤ) : Type 0 where
  pub override_converts : quota.override.as_int64.1 ≡ true
  pub override_first : ¬ (quota.override.as_int64.0 ≡ pos 0) → q ≡ quota.override.as_int64.0
  pub default_else :
      quota.override.as_int64.0 ≡ pos 0
      → (quota.default.as_int64.1 ≡ true) × (q ≡ quota.default.as_int64.0)

-- The code chooses what is asked for.
pub IsTarget-chosen : (quota : Quota) (q : ℤ) → IsTarget quota q → quota_to_reset_to quota ≡ some q
IsTarget-chosen quota q t =
    rw t.override_converts (elim (Bool-cases (quota.override.as_int64.0 =ℤ pos 0)) [
      | inl e ↦
          let (converts, is) = t.default_else (=ℤ→eq quota.override.as_int64.0 (pos 0) e) in
          rw (e, converts, is) refl
      | inr e ↦ rw (e, t.override_first (λ z. false≢true (sym e ∙ ap (λ a. a =ℤ pos 0) z))) refl
    ])
