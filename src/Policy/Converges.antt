-- ===== src/Policy/Converges.antt =====
-- What the reconciliation of a Policy brings about on the backend, if it returns no error.
use s3_operator.Prelude.{
  String, Bool, true, false, ◌≡◌, refl, sym, ◌∙◌, ap, subst, Option, none, some, eq_iff, eq_refl,
  is_some, Option-cases, inl, inr,
}
use mathlib.Core.Option
use s3_operator.Effect.{Error, ok, returned, Eff, Outcome}
use s3_operator.Effect.Post.{
  OnOk, Post, Finds, pure-Finds, Post-attempt, Post-bind, Post-weaken, Post-run, Sound,
}
use s3_operator.Api.{Policy, PolicySpec}
use s3_operator.S3.{S3Client, PolicyInfo}
use s3_operator.S3.Backend.{Backend, StoredPolicy, PolicyWritten}
use s3_operator.S3.Laws.{IsLawful, Reads, Changes, info_of}
use s3_operator.Cluster.{Reconciler, Formatting}
use s3_operator.Cluster.Laws.{IsConnected, IsReporting}
use s3_operator.Helpers.Condition.Reports.{
  report-Sound, report-Leaves, set_reconciled_condition-error,
}
use s3_operator.Helpers.Client.Serves.{for_ressource-Sound}
use s3_operator.Lifecycle.{unless_failed}
use s3_operator.Policy.{
  set_reconciled_condition, with_client, matches_compacted, is_policy_matching_with_custom_resource,
  after_failed_update, update_unless_matching, handle_update, handle_creation,
  handle_reconciliation,
}

-- The backend has the policy of a spec: one that the text of the spec denotes, or one whose text
-- encoding/json writes as it writes the compacted text of the spec.
pub data Implements (f : Formatting) (spec : PolicySpec) (s : Backend) : Type 0 where
  written :
      (q : StoredPolicy)
      → s.policy_of spec.name ≡ some q
      → q.denotes spec.policy_content ≡ true
      → Implements f spec s
  equivalent :
      (q : StoredPolicy) (json : String)
      → s.policy_of spec.name ≡ some q
      → f.json_compact spec.policy_content ≡ ok json
      → f.json_marshal q.text ≡ ok json
      → Implements f spec s

some_injective : {a b : String} → some a ≡ some b → a ≡ b
some_injective h = cc

policy_read :
    (p : Policy) (s : Backend) (x : PolicyInfo)
    → Option.map info_of (s.policy_of p.spec.name) ≡ some x
    → (q : StoredPolicy) × (s.policy_of p.spec.name ≡ some q) × (q.text ≡ x.policy)
policy_read p s x h = elim (Option-cases (s.policy_of p.spec.name)) [
  | inl e ↦ absurd (cc (rw e at h))
  | inr (q, e) ↦ (q, e, some_injective (ap (Option.map (λ i. i.policy)) (rw e at h)))
]

module _ {W : Type 0} {G : W → Type 0} where
  unless_failed-Sound :
      (x : Option Error) (rest : Eff W Outcome) (w : W)
      → is_some x ≡ true
      → Post (Sound G) (unless_failed x rest) w
  unless_failed-Sound none rest w h = absurd (cc)
  unless_failed-Sound (some e) rest w h = record { at = λ f. absurd (cc) }

module _ {W : Type 0} {view : W → Backend} {r : Reconciler W} (k : IsConnected view r)
    (reporting : IsReporting view r.policies) where
  -- The aim of a handler.
  abbrev Aim : Policy → Outcome → W → Type 0
  Aim p = Sound (λ v. Implements r.formatting p.spec (view v))

  report-Implements :
      (p : Policy) (reason message : String) (w : W)
      → Implements r.formatting p.spec (view w)
      → Post (Aim p) (set_reconciled_condition r p reason message none) w
  unfolding set_reconciled_condition
  report-Implements p reason message w h =
      Post-weaken _ w (λ a v e _. subst (Implements r.formatting p.spec) (sym e) h)
        (report-Leaves r r.policies reporting p reason message none w)

  written-Implements :
      (p : Policy) (s t : Backend)
      → PolicyWritten p.spec.name p.spec.policy_content s t
      → Implements r.formatting p.spec t
  written-Implements p s t h =
      Implements.written h.stored
        (ap (λ s. s.policy_of p.spec.name) h.policy_there ∙ rw (eq_refl p.spec.name) refl)
        h.stored_denotes

  -- The comparison is true only of a policy that is as the spec says.
  abbrev Compares : Policy → W → Bool → W → Type 0
  Compares p w matching v =
      (matching ≡ true → Implements r.formatting p.spec (view w)) × (view v ≡ view w)

  matches-Compares :
      (p : Policy) (o : Option PolicyInfo) (compacted : String) (w v : W)
      → o ≡ Option.map info_of ((view w).policy_of p.spec.name)
      → r.formatting.json_compact p.spec.policy_content ≡ ok compacted
      → v ≡ w
      → Post (OnOk (Compares p w)) (matches_compacted r compacted o) v
  unfolding matches_compacted
  matches-Compares p none compacted w v reads compact same = record { at = tt }
  matches-Compares p (some x) compacted w v reads compact same =
      Post-attempt {P = Finds (r.formatting.json_marshal x.policy) v} _ _ _ v (pure-Finds _ v)
        (λ e u. record { at = tt })
        λ marshalled u (marshal, still). record {
          at = (
            (λ e.
                let (q, is, text) = policy_read p (view w) x (sym reads) in
                Implements.equivalent q compacted is compact (
                  ap r.formatting.json_marshal text
                  ∙ marshal
                  ∙ ap ok (sym ((eq_iff compacted marshalled).0 e)))),
            ap view (still ∙ same),
          );
        }

  is_policy_matching-Compares :
      (p : Policy) (o : Option PolicyInfo) (w : W)
      → o ≡ Option.map info_of ((view w).policy_of p.spec.name)
      → Post (OnOk (Compares p w)) (is_policy_matching_with_custom_resource r p o) w
  unfolding is_policy_matching_with_custom_resource
  is_policy_matching-Compares p o w reads =
      Post-attempt {P = Finds (r.formatting.json_compact p.spec.policy_content) w} _ _ _ w
        (pure-Finds _ w) (λ e v. record { at = tt })
        λ compacted v (compact, same). matches-Compares p o compacted w v reads compact same

  pub after_failed_update-Sound :
      {G : W → Type 0} (p : Policy) (e : Error) (w : W)
      → Post (Sound G) (after_failed_update r p e) w
  unfolding after_failed_update
  after_failed_update-Sound p e w =
      Post-bind {P = λ a _. is_some a.0.error ≡ true} _ _ w
        (set_reconciled_condition-error r r.policies p _ _ _ e w)
        λ a v h. unless_failed-Sound a.0.error _ v h

  update_unless_matching-Implements :
      (p : Policy) (c : S3Client W) (matching : Bool) (w : W)
      → IsLawful view c
      → (matching ≡ true → Implements r.formatting p.spec (view w))
      → Post (Aim p) (update_unless_matching r c p matching) w
  unfolding update_unless_matching
  update_unless_matching-Implements p c true w lawful h = report-Implements p _ _ w (h refl)
  update_unless_matching-Implements p c false w lawful h =
      Post-attempt {P = Changes view (PolicyWritten p.spec.name p.spec.policy_content) w} _ _ _ w
        (lawful.create_or_update_policy_lem p.spec.name p.spec.policy_content w)
        (λ e v. after_failed_update-Sound p e v)
        λ _ v writes. report-Implements p _ _ v (written-Implements p (view w) (view v) writes)

  pub handle_update-Implements : (p : Policy) (w : W) → Post (Aim p) (handle_update r p) w
  unfolding handle_update with_client set_reconciled_condition
  handle_update-Implements p w = for_ressource-Sound k r.policies p _ _ _ _ w λ c v lawful _.
      Post-attempt {P = Reads view (λ s. Option.map info_of (s.policy_of p.spec.name)) v} _ _ _ v
        (lawful.get_policy_info_lem p.spec.name v) (λ e u. report-Sound r r.policies p _ _ e u)
        λ o u (reads, still).
          Post-attempt {P = Compares p u} _ _ _ u
            (is_policy_matching-Compares p o u
              (reads ∙ ap (λ s. Option.map info_of (s.policy_of p.spec.name)) (sym still)))
            (λ e t. report-Sound r r.policies p _ _ e t)
            λ matching t (matches, same).
              update_unless_matching-Implements p c matching t lawful
                (λ e. subst (Implements r.formatting p.spec) (sym same) (matches e))

  pub handle_creation-Implements : (p : Policy) (w : W) → Post (Aim p) (handle_creation r p) w
  unfolding handle_creation with_client set_reconciled_condition
  handle_creation-Implements p w = for_ressource-Sound k r.policies p _ _ _ _ w λ c v lawful _.
      Post-attempt {P = Changes view (PolicyWritten p.spec.name p.spec.policy_content) v} _ _ _ v
        (lawful.create_or_update_policy_lem p.spec.name p.spec.policy_content v)
        (λ e u. report-Sound r r.policies p _ _ e u)
        λ _ u writes. report-Implements p _ _ u (written-Implements p (view v) (view u) writes)

  pub handle_reconciliation-Sound :
      (p : Policy) (w : W)
      → Post (Sound (λ v. Implements r.formatting p.spec (view v))) (handle_reconciliation r p) w
  unfolding handle_reconciliation with_client set_reconciled_condition
  handle_reconciliation-Sound p w = for_ressource-Sound k r.policies p _ _ _ _ w λ c v lawful _.
      Post-attempt {P = Reads view (λ s. Option.map info_of (s.policy_of p.spec.name)) v} _ _ _ v
        (lawful.get_policy_info_lem p.spec.name v) (λ e u. report-Sound r r.policies p _ _ e u)
        λ o u _. elim (Option-cases o) [
          | inl missing ↦ rw missing (handle_creation-Implements p u)
          | inr (x, there) ↦ rw there (handle_update-Implements p u)
        ]

  -- Where clients are lawful, so that a policy that is written is kept as one that its text
  -- denotes, and the API server's calls leave the backend alone: if the reconciliation of a Policy
  -- returns no error, the backend has a policy of that name which the text of the spec denotes, or
  -- whose text encoding/json writes as it writes the compacted text of the spec.
  pub handle_reconciliation-Implements :
      (p : Policy) (w v : W) (a : Outcome)
      → handle_reconciliation r p w ≡ (returned a, v)
      → a.error ≡ none
      → Implements r.formatting p.spec (view v)
  handle_reconciliation-Implements p w v a run fine =
      Post-run _ w (handle_reconciliation-Sound p w) a v run fine
