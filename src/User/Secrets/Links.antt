-- ===== src/User/Secrets/Links.antt =====
-- Which secrets the loop of getUserLinkedSecrets links to a user.
use mathlib.Core.List as L
use s3_operator.Prelude.{
  String, Bool, true, false, not, ◌&&◌, ◌||◌, ◌==◌, ◌≡◌, refl, sym, ◌∙◌, Option, none, some,
  is_some, List, [], ◌∷◌, is_empty, if◌then◌else◌, arith, Bool-cases, inl, inr,
}
use s3_operator.Effect.{ok, returned, attempt, ◌>>=◌}
use s3_operator.Api.{OwnerReference, S3User, Secret}
use s3_operator.Cluster.{Reconciler}
use s3_operator.User.Secrets.{
  LinkedSecrets, owned_copies, named, link_secret, link_secrets, no_secrets,
  get_user_linked_secrets,
}

module _ {ℓ} {A : Type ℓ} where
  abbrev pub any : (A → Bool) → List A → Bool
  any p [] = false
  any p (x ∷ xs) = p x || any p xs

  abbrev pub or_else : Option A → Option A → Option A
  or_else none o = o
  or_else (some a) o = some a

  abbrev pub first : (A → Bool) → List A → Option A
  first p [] = none
  first p (x ∷ xs) = if p x then some x else first p xs

  abbrev pub last : (A → Bool) → List A → Option A
  last p [] = none
  last p (x ∷ xs) = or_else (last p xs) (if p x then some x else none)

  or_else-none : (o : Option A) → or_else o none ≡ o
  or_else-none none = refl
  or_else-none (some a) = refl

  -- A choice between what comes last by one test, and what comes first by another.
  choice_round :
      (x : A) (rest later found : Option A) (skipped c d : Bool)
      → or_else later (
          or_else
            (if not skipped
              then (if c then some x else if d && not (is_some found) then some x else found)
              else found)
            rest)
        ≡ or_else
            (or_else later (if not skipped && c then some x else none))
            (or_else found (if not skipped && d then some x else rest))
  choice_round x rest (some t) found skipped c d = refl
  choice_round x rest none found true c d = refl
  choice_round x rest none found false true d = refl
  choice_round x rest none none false false true = refl
  choice_round x rest none none false false false = refl
  choice_round x rest none (some f) false false true = refl
  choice_round x rest none (some f) false false false = refl

  any-append : (p : A → Bool) (xs ys : List A) → any p (L.◌++◌ xs ys) ≡ (any p xs || any p ys)
  any-append p [] ys = refl
  any-append p (x ∷ xs) ys = ground (arith, any-append p xs ys)

-- The user is among the owners of the secret.
abbrev pub owns : S3User → Secret → Bool
owns user secret = any (λ ref. ref.uid == user.uid) secret.owner_references

abbrev pub stray : S3User → String → Secret → Bool
stray user name secret = not (owns user secret) && secret.name == name

-- A test finds an owned secret exactly if it finds one among the secrets that the user owns. Of the
-- others, the last with the configured name is linked, or else the first with the user's.
pub record Links (user : S3User) (secrets : List Secret) (found : LinkedSecrets) : Type 0 where
  pub owned_lem : (p : Secret → Bool) → any p found.owned ≡ any (λ s. p s && owns user s) secrets
  pub not_owned_lem :
      found.not_owned_configured
      ≡ or_else
          (last (stray user user.spec.secret_name) secrets)
          (first (stray user user.name) secrets)

module _ (user : S3User) where
  any-copies :
      (p : Secret → Bool) (s : Secret) (refs : List OwnerReference)
      → any p (owned_copies user.uid s refs) ≡ (p s && any (λ ref. ref.uid == user.uid) refs)
  unfolding owned_copies
  any-copies p s [] = ground arith
  any-copies p s (ref ∷ refs) = elim (Bool-cases (ref.uid == user.uid)) [
    | inl e ↦ rw e (ground (arith, any-copies p s refs))
    | inr e ↦ rw e (any-copies p s refs)
  ]

  is_empty-copies :
      (s : Secret) (refs : List OwnerReference)
      → is_empty (owned_copies user.uid s refs) ≡ not (any (λ ref. ref.uid == user.uid) refs)
  unfolding owned_copies
  is_empty-copies s [] = refl
  is_empty-copies s (ref ∷ refs) = elim (Bool-cases (ref.uid == user.uid)) [
    | inl e ↦ rw e refl
    | inr e ↦ rw e (is_empty-copies s refs)
  ]

  owned_from :
      (p : Secret → Bool) (found : LinkedSecrets) (secrets : List Secret)
      → any p (link_secrets user found secrets).owned
        ≡ (any p found.owned || any (λ s. p s && owns user s) secrets)
  unfolding link_secrets
  owned_from p found [] = ground arith
  owned_from p found (s ∷ secrets) =
      let copies = owned_copies user.uid s s.owner_references in
      ground (
        arith,
        owned_from p (link_secret user found s) secrets,
        any-append p found.owned copies,
        any-copies p s s.owner_references,
      )

  -- One round, on what was found and what follows.
  linked_round :
      (s : Secret) (found later : Option Secret) (rest : Option Secret)
      → or_else later (
          or_else
            (if is_empty (owned_copies user.uid s s.owner_references)
              then named user s found
              else found)
            rest)
        ≡ or_else
            (or_else later (if stray user user.spec.secret_name s then some s else none))
            (or_else found (if stray user user.name s then some s else rest))
  linked_round s found later rest = rw (is_empty-copies s s.owner_references) (
      choice_round s rest later found (owns user s) (s.name == user.spec.secret_name)
        (s.name == user.name))

  not_owned_from :
      (found : LinkedSecrets) (secrets : List Secret)
      → (link_secrets user found secrets).not_owned_configured
        ≡ or_else
            (last (stray user user.spec.secret_name) secrets)
            (or_else found.not_owned_configured (first (stray user user.name) secrets))
  unfolding link_secrets
  not_owned_from found [] = sym (or_else-none found.not_owned_configured)
  not_owned_from found (s ∷ secrets) =
      not_owned_from (link_secret user found s) secrets
      ∙ linked_round s found.not_owned_configured (last (stray user user.spec.secret_name) secrets)
          (first (stray user user.name) secrets)

  link_secrets-Links :
      (secrets : List Secret) → Links user secrets (link_secrets user no_secrets secrets)
  link_secrets-Links secrets = record {
    owned_lem = λ p. owned_from p no_secrets secrets;
    not_owned_lem = not_owned_from no_secrets secrets;
  }

module _ {W : Type 0} (r : Reconciler W) where
  -- If the API server lists secrets for the user's namespace, then getUserLinkedSecrets returns
  -- without an error. A test finds one of the owned secrets that it returns exactly if it finds
  -- one that is listed and has the user's UID among its owners; and the other secret that it
  -- returns is, of those listed that the user does not own, the last that has the configured name,
  -- or, if there is none, the first that has the user's name.
  pub get_user_linked_secrets-Links :
      (user : S3User) (secrets : List Secret) (w v : W)
      → r.secrets.list user.namespace w ≡ (returned (ok secrets), v)
      → (found : LinkedSecrets) × ((get_user_linked_secrets r user w ≡ (returned (ok found), v))
          × Links user secrets found)
  unfolding get_user_linked_secrets attempt ◌>>=◌
  get_user_linked_secrets-Links user secrets w v listed =
      (link_secrets user no_secrets secrets, (rw listed refl, link_secrets-Links user secrets))
