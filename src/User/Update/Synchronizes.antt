-- ===== src/User/Update/Synchronizes.antt =====
-- What the update of a user does to its policies on the backend, if it goes through.
use s3_operator.Prelude.{
  String, Bool, true, ◌≡◌, refl, sym, ◌∙◌, ap, subst, none, List, [], ◌∷◌, contains, is_empty,
  Bool-cases, inl, inr, eq_refl, arith,
}
use s3_operator.Effect.{Result, returned, Eff, pure, Outcome, done}
use s3_operator.Effect.Post.{OnOk, Post, Post-attempt, Post-run, Sound}
use s3_operator.Api.{S3User}
use s3_operator.S3.{S3Client}
use s3_operator.S3.Backend.{Backend, attach, detach}
use s3_operator.S3.Laws.{IsLawful, Writes}
use s3_operator.Cluster.{Reconciler}
use s3_operator.Helpers.Condition.Reports.{report-Sound}
use s3_operator.User.Secrets.{policies_of}
use s3_operator.User.Create.{set_reconciled_condition}
use s3_operator.User.Update.{policy_to_delete, policy_to_add, change_policies, update_policies}
use s3_operator.User.Update.Policies.{attached, detached, update-policies_of}

-- The user has exactly the policies of the spec.
abbrev pub Synchronized : S3User → Backend → Type 0
Synchronized user s =
    (p : String) → s.user_has user.spec.access_key p ≡ contains (policies_of user) p

-- From `s` to `t` the policies of the user have changed to `held`, and who has a key has not.
pub record Holding (user : S3User) (s : Backend) (held : String → Bool) (t : Backend) : Type 0 where
  pub holds : (p : String) → t.user_has user.spec.access_key p ≡ held p
  pub same_keys : t.secret_key_of ≡ s.secret_key_of

module _ (user : S3User) where
  detach-Holding :
      (s : Backend) (held : String → Bool) (ps : List String) (t : Backend)
      → Holding user s held t
      → Holding user s (detached held ps) (detach user.spec.access_key ps t)
  detach-Holding s held ps t h = record {
    holds = λ p. rw (eq_refl user.spec.access_key, h.holds p) refl;
    same_keys = h.same_keys;
  }

  attach-Holding :
      (s : Backend) (held : String → Bool) (ps : List String) (t : Backend)
      → Holding user s held t
      → Holding user s (attached held ps) (attach user.spec.access_key ps t)
  attach-Holding s held ps t h = record {
    holds = λ p. rw (eq_refl user.spec.access_key, h.holds p) refl;
    same_keys = h.same_keys;
  }

  detached-nil :
      (held : String → Bool) (ps : List String) (p : String)
      → is_empty ps ≡ true
      → detached held ps p ≡ held p
  detached-nil held [] p e = ground arith
  detached-nil held (q ∷ ps) p e = absurd (cc)

  attached-nil :
      (held : String → Bool) (ps : List String) (p : String)
      → is_empty ps ≡ true
      → attached held ps p ≡ held p
  attached-nil held [] p e = ground arith
  attached-nil held (q ∷ ps) p e = absurd (cc)

module _ {W : Type 0} {view : W → Backend} (r : Reconciler W) (user : S3User) where
  -- A list of policies that is empty changes nothing, and so the call may be left out.
  change_policies-Holding :
      {G : W → Type 0} (change : List String → Eff W (Result (Unit {0})))
      (effect : List String → Backend → Backend) (policies : List String)
      (after : (String → Bool) → String → Bool) (s : Backend) (held : String → Bool)
      (rest : Eff W Outcome) (w : W)
      → ((v : W) → Post (OnOk (Writes view (effect policies) v)) (change policies) v)
      → ((t : Backend) → Holding user s held t → Holding user s (after held) (effect policies t))
      → ((p : String) → is_empty policies ≡ true → after held p ≡ held p)
      → Holding user s held (view w)
      → ((v : W) → Holding user s (after held) (view v) → Post (Sound G) rest v)
      → Post (Sound G) (change_policies r user change policies rest) w
  unfolding change_policies set_reconciled_condition
  change_policies-Holding change effect policies after s held rest w law step skip h go =
      elim (Bool-cases (is_empty policies)) [
        | inl e ↦
            simp e
              (go w (record { holds = λ p. h.holds p ∙ sym (skip p e); same_keys = h.same_keys }))
        | inr e ↦ simp e (
            Post-attempt {P = Writes view (effect policies) w} _ _ _ w (law w)
              (λ x v. report-Sound r r.s3_users user _ _ x v)
              (λ _ v writes.
                go v (subst (Holding user s (after held)) (sym writes) (step (view w) h))))
      ]

  -- What the rest of the handler may build on.
  pub update_policies-Sound :
      {G : W → Type 0} (c : S3Client W) (rest : Eff W Outcome) (w : W)
      → IsLawful view c
      → ((v : W)
          → Synchronized user (view v)
          → (view v).secret_key_of ≡ (view w).secret_key_of
          → Post (Sound G) rest v)
      → Post (Sound G) (update_policies r c user rest) w
  unfolding update_policies set_reconciled_condition
  update_policies-Sound c rest w lawful go =
      Post-attempt _ _ _ w (lawful.get_user_policies_lem user.spec.access_key w)
        (λ e v. report-Sound r r.s3_users user _ _ e v)
        λ held v (reads, same).
          change_policies-Holding _ (detach user.spec.access_key) (policy_to_delete user held)
            (λ f. detached f (policy_to_delete user held)) (view w) (contains held) _ v
            (lawful.remove_policies_from_user_lem user.spec.access_key _)
            (detach-Holding user (view w) (contains held) _) (detached-nil user (contains held) _)
            (record {
              holds = λ p. ap (λ s. s.user_has user.spec.access_key p) same ∙ sym (reads p);
              same_keys = ap (λ s. s.secret_key_of) same;
            })
            λ u h.
              change_policies-Holding _ (attach user.spec.access_key) (policy_to_add user held)
                (λ f. attached f (policy_to_add user held)) (view w)
                (detached (contains held) (policy_to_delete user held)) rest u
                (lawful.add_policies_to_user_lem user.spec.access_key _)
                (attach-Holding user (view w) _ _) (attached-nil user _ _) h
                λ t h'. go t (λ p. h'.holds p ∙ update-policies_of user held p) h'.same_keys

  -- If the part of an update that is about policies, of a lawful client, goes through to its end
  -- without an error, here with nothing behind it, then the user has exactly the policies of the
  -- spec, and the same users have the same keys.
  pub update_policies-Synchronized :
      (c : S3Client W) (w v : W) (a : Outcome)
      → IsLawful view c
      → update_policies r c user (pure done) w ≡ (returned a, v)
      → a.error ≡ none
      → Synchronized user (view v) × ((view v).secret_key_of ≡ (view w).secret_key_of)
  update_policies-Synchronized c w v a lawful run fine =
      Post-run _ w
        (update_policies-Sound
          {G = λ v. Synchronized user (view v) × ((view v).secret_key_of ≡ (view w).secret_key_of)}
          c _ w lawful (λ u h same. record { at = λ _. (h, same) }))
        a v run fine
