-- ===== src/Instance/Referred.antt =====
-- An S3 instance that is still referred to is not released.
use mathlib.Core.List.{Permᴰ}
use s3_operator.Prelude.{
  String, true, false, ◌≡◌, ◌↔◌, ◌⊎◌, refl, sym, ◌∙◌, ap, subst, List, [], ◌∷◌, All, ltb, eq_iff,
  eq_refl, Bool-cases, inl, inr, is_some, arith,
}
use s3_operator.Effect.{Result, ok, err, returned, Eff, Outcome}
use s3_operator.Effect.Post.{Post, Post-handle, Post-weaken, Post-always, Post-run}
use s3_operator.Text.Split.{Lacks}
use s3_operator.Api.{Resource, Bucket, PathCr, Policy, S3User, S3Instance}
use s3_operator.Cluster.{ResourceClient, Reconciler}
use s3_operator.Helpers.InstanceRef.{get_s3_instance_ref_info, info_string}
use s3_operator.Helpers.InstanceRef.RoundTrip.{ref_info-info_string}
use s3_operator.Instance.{
  ReferenceKind, buckets, policies, paths, s3_users, refers_to, count_references, check_list,
  check_kind, check_kinds, KeyOrder, references, check_s3_instance_references,
  s3_instance_finalizer, handle_s3_instance_deletion,
}

-- The objects of the API server.
pub record Objects : Type 0 where
  pub buckets : List Bucket
  pub policies : List Policy
  pub paths : List PathCr
  pub s3_users : List S3User
  pub s3_instances : List S3Instance

abbrev pub Answers : {A : Type 0} → Result A → A → Type 0
Answers (ok a) b = a ≡ b
Answers (err e) b = Unit

-- What the code relies on in `List`: it changes no object, and returns those that are there.
pub record IsListing {W : Type 0} (objects : W → Objects) (r : Reconciler W) : Type 0 where
  pub buckets_lem :
      (w : W)
      → Post (λ x v. (objects v ≡ objects w) × Answers x (objects w).buckets) r.buckets.list w
  pub policies_lem :
      (w : W)
      → Post (λ x v. (objects v ≡ objects w) × Answers x (objects w).policies) r.policies.list w
  pub paths_lem :
      (w : W) → Post (λ x v. (objects v ≡ objects w) × Answers x (objects w).paths) r.paths.list w
  pub s3_users_lem :
      (w : W)
      → Post (λ x v. (objects v ≡ objects w) × Answers x (objects w).s3_users) r.s3_users.list w

-- No object of the list refers to the instance.
abbrev pub NoneRefers :
    {Spec : Type 0} → (Spec → String) → S3Instance → List (Resource Spec) → Type 0
NoneRefers ref s objects = All (λ o. refers_to s (ref o.spec) o.namespace ≡ false) objects

-- No object of the kind refers to the instance.
abbrev pub IsFree : S3Instance → Objects → ReferenceKind → Type 0
IsFree s o buckets = NoneRefers (λ s. s.s3_instance_ref) s o.buckets
IsFree s o policies = NoneRefers (λ s. s.s3_instance_ref) s o.policies
IsFree s o paths = NoneRefers (λ s. s.s3_instance_ref) s o.paths
IsFree s o s3_users = NoneRefers (λ s. s.s3_instance_ref) s o.s3_users

-- Where names have no slash, an object refers to an instance, as `countReferences` reads it,
-- exactly if the reference of the object names the instance.
pub refers_to_iff :
    (s : S3Instance) (ref ns : String)
    → Lacks s.namespace b'/'
    → Lacks s.name b'/'
    → Lacks (get_s3_instance_ref_info ref ns).namespace b'/'
    → Lacks (get_s3_instance_ref_info ref ns).name b'/'
    → (refers_to s ref ns ≡ true)
      ↔ (get_s3_instance_ref_info ref ns ≡ record { name = s.name; namespace = s.namespace })
unfolding refers_to
refers_to_iff s ref ns hs hn h k = (
  λ e.
      sym (ref_info-info_string (get_s3_instance_ref_info ref ns) "" h k)
      ∙ ap (λ t. get_s3_instance_ref_info t "") ((eq_iff _ _).0 e)
      ∙ ref_info-info_string (record { name = s.name; namespace = s.namespace }) "" hs hn,
  λ e. rw e (eq_refl (info_string (record { name = s.name; namespace = s.namespace }))),
)

All-Perm :
    (P : ReferenceKind → Type 0) {xs ys : List ReferenceKind} → Permᴰ xs ys → All P xs → All P ys
All-Perm P Permᴰ.nil all = tt
All-Perm P (Permᴰ.cons e d) (p, all) = (subst P e p, All-Perm P d all)
All-Perm P (Permᴰ.swap e f) (p, (q, all)) = (subst P f q, (subst P e p, all))
All-Perm P (Permᴰ.trans d e) all = All-Perm P e (All-Perm P d all)

every-kind : (P : ReferenceKind → Type 0) → All P references → (kind : ReferenceKind) → P kind
every-kind P (b, (p, (t, (u, _)))) buckets = b
every-kind P (b, (p, (t, (u, _)))) policies = p
every-kind P (b, (p, (t, (u, _)))) paths = t
every-kind P (b, (p, (t, (u, _)))) s3_users = u

count_references-zero :
    {Spec : Type 0} (ref : Spec → String) (s : S3Instance) (objects : List (Resource Spec))
    → ltb 0 (count_references ref s objects) ≡ false
    → NoneRefers ref s objects
unfolding count_references
count_references-zero ref s [] h = tt
count_references-zero ref s (o ∷ objects) h =
    elim (Bool-cases (refers_to s (ref o.spec) o.namespace)) [
      | inl e ↦ absurd (ground (arith, e, h))
      | inr e ↦ (e, count_references-zero ref s objects (rw e at h))
    ]

module _ {W : Type 0} {objects : W → Objects} {r : Reconciler W} (k : IsListing objects r)
    (s : S3Instance) where
  -- A check without an error has found that `P` holds, and no check changes an object.
  abbrev Finds : Type 0 → W → Result (Unit {0}) → W → Type 0
  Finds P w (ok _) v = (objects v ≡ objects w) × P
  Finds P w (err e) v = objects v ≡ objects w

  Finds-later :
      (P Q : Type 0) (w v : W)
      → objects v ≡ objects w
      → Q
      → (x : Result (Unit {0})) (u : W) → Finds P v x u
      → Finds (Q × P) w x u
  Finds-later P Q w v e q (ok _) u (same, p) = (same ∙ e, (q, p))
  Finds-later P Q w v e q (err _) u same = same ∙ e

  check_list-Finds :
      {Spec : Type 0} (kind : ReferenceKind) (ref : Spec → String) (client : ResourceClient W Spec)
      (stored : List (Resource Spec)) (P : Type 0) (rest : Eff W (Result (Unit {0}))) (w : W)
      → Post (λ x v. (objects v ≡ objects w) × Answers x stored) client.list w
      → ((v : W) → objects v ≡ objects w → Post (Finds P v) rest v)
      → Post (Finds (NoneRefers ref s stored × P) w) (check_list r kind ref client s rest) w
  unfolding check_list
  check_list-Finds kind ref client stored P rest w lists goes_on =
      Post-handle (λ x v. (objects v ≡ objects w) × Answers x stored) _ _ _ w lists
        (λ e v (same, _). record { at = same })
        λ found v (same, answer). elim (Bool-cases (ltb 0 (count_references ref s found))) [
          | inl some_refer ↦ rw some_refer (record { at = same })
          | inr none_refer ↦ rw none_refer (
              Post-weaken _ v
                (Finds-later P (NoneRefers ref s stored) w v same
                  (subst (NoneRefers ref s) answer (count_references-zero ref s found none_refer)))
                (goes_on v same))
        ]

  check_kind-Finds :
      (kind : ReferenceKind) (P : Type 0) (rest : Eff W (Result (Unit {0}))) (w : W)
      → ((v : W) → objects v ≡ objects w → Post (Finds P v) rest v)
      → Post (Finds (IsFree s (objects w) kind × P) w) (check_kind r kind s rest) w
  unfolding check_kind
  check_kind-Finds buckets P rest w = check_list-Finds buckets _ _ _ P rest w (k.buckets_lem w)
  check_kind-Finds policies P rest w = check_list-Finds policies _ _ _ P rest w (k.policies_lem w)
  check_kind-Finds paths P rest w = check_list-Finds paths _ _ _ P rest w (k.paths_lem w)
  check_kind-Finds s3_users P rest w = check_list-Finds s3_users _ _ _ P rest w (k.s3_users_lem w)

  check_kinds-Finds :
      (kinds : List ReferenceKind) (w : W)
      → Post (Finds (All (IsFree s (objects w)) kinds) w) (check_kinds r kinds s) w
  unfolding check_kinds
  check_kinds-Finds [] w = record { at = (refl, tt) }
  check_kinds-Finds (kind ∷ kinds) w = check_kind-Finds kind _ _ w λ v same.
      subst (λ o. Post (Finds (All (IsFree s o) kinds) v) (check_kinds r kinds s) v) same
        (check_kinds-Finds kinds v)

  module _ (order : KeyOrder) (visits : Permᴰ (order references) references) where
    -- No object of any kind refers to the instance.
    abbrev Free : W → Type 0
    Free w = (kind : ReferenceKind) → IsFree s (objects w) kind

    Free-visited : (w : W) → All (IsFree s (objects w)) (order references) → Free w
    Free-visited w all =
        every-kind (IsFree s (objects w)) (All-Perm (IsFree s (objects w)) visits all)

    deletion_Finds :
        (w : W)
        → r.machinery.contains_finalizer s.finalizers s3_instance_finalizer ≡ true
        → Post
            (λ a v. Free w ⊎ ((is_some a.error ≡ true) × (objects v ≡ objects w)))
            (handle_s3_instance_deletion r order s)
            w
    unfolding handle_s3_instance_deletion check_s3_instance_references
    deletion_Finds w has = rw has (
        Post-handle (Finds (All (IsFree s (objects w)) (order references)) w) _ _ _ w
          (check_kinds-Finds (order references) w) (λ e v same. record { at = inr (refl, same) })
          (λ _ v (same, free). Post-always _ v (λ a u. inl (Free-visited w free))))

    -- Where `List` changes no object and returns those that are there, and `range` visits the keys
    -- of a map in some order: when an S3 instance that has the finalizer is to be deleted and the
    -- handler returns, then either no Bucket, Policy, Path or S3User refers to it, or the handler
    -- returns an error and has changed no object.
    pub handle_s3_instance_deletion-kept :
        (w v : W) (a : Outcome)
        → r.machinery.contains_finalizer s.finalizers s3_instance_finalizer ≡ true
        → handle_s3_instance_deletion r order s w ≡ (returned a, v)
        → ((kind : ReferenceKind) → IsFree s (objects w) kind)
          ⊎ ((is_some a.error ≡ true) × (objects v ≡ objects w))
    handle_s3_instance_deletion-kept w v a has run = Post-run _ w (deletion_Finds w has) a v run
