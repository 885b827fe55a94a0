-- ===== src/Bucket/Guard/Calls.antt =====
-- What each call of the bucket controller does to the guarded buckets.
use mathlib.Core.Bool.{false≢true}
use s3_operator.Prelude.{
  String, Bool, true, false, ◌==◌, ◌≡◌, ◌⊎◌, inl, inr, refl, sym, ◌∙◌, ap, subst, Option, some, [],
  eq_iff, eq_refl, Bool-cases,
}
use s3_operator.Effect.{Eff}
use s3_operator.Effect.Keeps.{Keeps}
use s3_operator.Text.Laws.{&&-true}
use s3_operator.Api.{Bucket, NamespacedName}
use s3_operator.Cluster.{Machinery}
use s3_operator.Bucket.{bucket_finalizer}
use s3_operator.Bucket.Guard.{
  Stored, Site, stored_of, key_of, same_key, write_object, write_bucket, Guards, Guarded, Updates,
  Fixes,
}

module _ {W : Type 0} {site : W → Site} (P : Site → Type 0) where
  -- A call that fixes the site keeps what holds of it.
  pub Fixes-Keeps : {A : Type 0} (m : Eff W A) → Fixes site m → Keeps (λ w. P (site w)) A m
  Fixes-Keeps m h w p = subst P (sym (h w)) p

module _ (P : Site → Type 0) where
  -- One of two outcomes, of which both keep it.
  pub either-Keeps : (s t u : Site) → (P s → P t) → P s → (u ≡ s) ⊎ (u ≡ t) → P u
  either-Keeps s t u f p (inl e) = subst P (sym e) p
  either-Keeps s t u f p (inr e) = subst P (sym e) (f p)

module _ (machinery : Machinery) (before : String → Bool) where
  -- The buckets are guarded, and the API server has the object as it is in hand.
  abbrev pub Held : Bucket → Site → Type 0
  Held b s = Guarded machinery before s × (s.objects (key_of b) ≡ some (stored_of b))

  module _ (b : Bucket) where
    pub write_bucket-Held :
        (s : Site)
        → machinery.contains_finalizer b.finalizers bucket_finalizer ≡ true
        → Held b s
        → Held b (write_bucket b.spec.name true s)
    write_bucket-Held s has (guarded, there) = (
      λ n h. elim (Bool-cases (b.spec.name == n)) [
        | inl e ↦ inr (key_of b, (stored_of b, there, (eq_iff b.spec.name n).0 e, has))
        | inr e ↦ guarded n (sym (rw e refl) ∙ h)
      ],
      there,
    )

    pub remove_bucket-Held : (s : Site) → Held b s → Held b (write_bucket b.spec.name false s)
    remove_bucket-Held s (guarded, there) = (
      λ n h. elim (Bool-cases (b.spec.name == n)) [
        | inl e ↦ absurd (false≢true (sym (rw e refl) ∙ h))
        | inr e ↦ guarded n (sym (rw e refl) ∙ h)
      ],
      there,
    )

same_key-eq : (j k : NamespacedName) → same_key j k ≡ true → j ≡ k
same_key-eq j k h =
    let (a, b) = &&-true _ _ h in
    λ i. record {
      namespace = (eq_iff j.namespace k.namespace).0 a i;
      name = (eq_iff j.name k.name).0 b i;
    }

same_key_refl : (k : NamespacedName) → same_key k k ≡ true
same_key_refl k = rw (eq_refl k.namespace, eq_refl k.name) refl

module _ (machinery : Machinery) (before : String → Bool) (o : Bucket) (s : Site)
    (guarded : Guarded machinery before s) where
  -- Of a write of an object that the API server has: it leaves the finalizer where it is, or the
  -- bucket of the object is gone.
  abbrev Allowed : Option Stored → Type 0
  Allowed new =
      ((new ≡ some (stored_of o))
        × (machinery.contains_finalizer o.finalizers bucket_finalizer ≡ true))
      ⊎ (s.buckets o.spec.name ≡ false)

  -- The object guards the bucket that it names, if that is there at all.
  by_object :
      (new : Option Stored) (n : String)
      → Allowed new
      → o.spec.name ≡ n
      → s.buckets n ≡ true
      → Guards machinery (write_object (key_of o) new s) n
  by_object new n (inl (stored, has)) named h =
      (key_of o, (stored_of o, rw (same_key_refl (key_of o)) stored, named, has))
  by_object new n (inr gone) named h = absurd (false≢true (sym gone ∙ ap s.buckets named ∙ h))

  write_object-Guarded :
      (old : Stored) (new : Option Stored)
      → s.objects (key_of o) ≡ some old
      → old.spec ≡ o.spec
      → Allowed new
      → Guarded machinery before (write_object (key_of o) new s)
  write_object-Guarded old new there same allowed n h = elim (guarded n h) [
    | inl past ↦ inl past
    | inr (k, (x, at, named, has)) ↦ elim (Bool-cases (same_key (key_of o) k)) [
      | inl e ↦
          let one : old ≡ x = cc (sym there ∙ ap s.objects (same_key-eq (key_of o) k e) ∙ at) in
          inr (
            by_object new n allowed
              (sym (ap (λ y. y.name) same) ∙ ap (λ y. y.spec.name) one ∙ named) h)
      | inr e ↦ inr (k, (x, rw e at, named, has))
    ]
  ]

  -- A write of an object, however it ends.
  pub Updates-Guarded :
      (old : Stored) (t : Site)
      → s.objects (key_of o) ≡ some old
      → old.spec ≡ o.spec
      → machinery.contains_finalizer [] bucket_finalizer ≡ false
      → (machinery.contains_finalizer o.finalizers bucket_finalizer ≡ true)
        ⊎ (s.buckets o.spec.name ≡ false)
      → Updates o s t
      → Guarded machinery before t
  Updates-Guarded old t there same none_has allowed (inl e) =
      subst (Guarded machinery before) (sym e) guarded
  Updates-Guarded old t there same none_has (inl has) (inr (inl e)) =
      subst (Guarded machinery before) (sym e)
        (write_object-Guarded old _ there same (inl (refl, has)))
  Updates-Guarded old t there same none_has (inr gone) (inr (inl e)) =
      subst (Guarded machinery before) (sym e) (write_object-Guarded old _ there same (inr gone))
  Updates-Guarded old t there same none_has (inl has) (inr (inr (nil, e))) = absurd (
      false≢true (
        sym none_has ∙ ap (λ fs. machinery.contains_finalizer fs bucket_finalizer) (sym nil) ∙ has))
  Updates-Guarded old t there same none_has (inr gone) (inr (inr (nil, e))) =
      subst (Guarded machinery before) (sym e) (write_object-Guarded old _ there same (inr gone))
