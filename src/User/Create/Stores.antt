-- ===== src/User/Create/Stores.antt =====
-- The secret of a new user has the credentials that the user was created with.
use mathlib.Core.Bool.{false≢true}
use s3_operator.Prelude.{
  String, Bool, true, false, ◌&&◌, ◌||◌, ◌≡◌, refl, sym, ◌∙◌, subst, Option, none, some,
  if◌then◌else◌, Bool-cases, inl, inr,
}
use s3_operator.Effect.{Result, ok, err, returned, Eff, Outcome}
use s3_operator.Effect.Post.{
  pure-Finds, OnOk, Post, Post-any, Post-attempt, Post-bind, Post-run, Sound,
}
use s3_operator.Api.{S3User, Secret, ObjectMeta, OwnerReference}
use s3_operator.S3.{S3Client}
use s3_operator.Cluster.{Reconciler}
use s3_operator.Cluster.Laws.{IsOwning, secret_key}
use s3_operator.User.Secrets.{unowned_secret, new_secret_for_cr}
use s3_operator.User.Create.{
  set_reconciled_condition, with_client, create_user, add_policies, override_secret,
  create_with_existing, create_after_get, create_with_key, handle_create, read_secret_key,
}
use s3_operator.User.Create.Keys.{Keys, IsKeyed, IsKeeping, place_of, Kept}
use s3_operator.User.Create.Content.{HasFields}
use s3_operator.User.Create.Secures.{
  Made, failing, asking-Keyed, create_with_secret-Kept, overriding-Kept, reading-Kept,
}

module _ {W : Type 0} {keys : W → Keys} {r : Reconciler W} (k : IsKeeping keys r)
    (owning : IsOwning r.machinery)
    (contents : (m : ObjectMeta) (s t : Secret)
      → r.machinery.set_controller_reference m s ≡ ok t
      → t.content ≡ s.content)
    (one_mode : (r.override_existing_secret && r.read_existing_secret) ≡ false) (user : S3User)
    (fields : HasFields user) where
  abbrev Aim : Outcome → W → Type 0
  Aim = Sound (λ v. Kept r.read_existing_secret user (keys v))

  -- By the two switches of the operator.
  choose-Kept :
      (overrides reads : Bool) (c : S3Client W) (secret existing : Secret) (key message : String)
      (refuse : Eff W Outcome) (w : W)
      → r.override_existing_secret ≡ overrides
      → r.read_existing_secret ≡ reads
      → IsKeyed keys c
      → Made k owning contents one_mode user fields key secret
      → (keys w).secret_at (place_of user) ≡ some existing
      → Post Aim refuse w
      → Post Aim
          (if overrides || reads
            then create_user r c user
                (if reads
                  then read_secret_key user.spec.secret_field_name_secret_key key existing.content
                  else key)
                (override_secret r user secret (add_policies r user message))
            else refuse)
          w
  choose-Kept true true c secret existing key message refuse w o d keyed made found h =
      absurd (false≢true (sym one_mode ∙ rw (o, d) refl))
  choose-Kept true false c secret existing key message refuse w o d keyed made found h =
      overriding-Kept k owning contents one_mode user fields c secret key message w o keyed made
  choose-Kept false true c secret existing key message refuse w o d keyed made found h =
      reading-Kept k owning contents one_mode user fields c secret existing key message w o d keyed
        found
  choose-Kept false false c secret existing key message refuse w o d keyed made found h = h

  create_with_existing-Kept :
      (c : S3Client W) (secret existing : Secret) (key : String) (o : Option OwnerReference) (w : W)
      → IsKeyed keys c
      → Made k owning contents one_mode user fields key secret
      → (keys w).secret_at (place_of user) ≡ some existing
      → Post Aim (create_with_existing r c user secret existing key o) w
  unfolding create_with_existing
  create_with_existing-Kept c secret existing key (some ref) w keyed made found =
      failing k owning contents one_mode user fields _ _ _ w
  create_with_existing-Kept c secret existing key none w keyed made found =
      choose-Kept _ _ c secret existing key _ _ w refl refl keyed made found
        (failing k owning contents one_mode user fields _ _ _ w)

  create_after_get-Kept :
      (c : S3Client W) (secret : Secret) (key : String) (x : Result Secret) (w : W)
      → IsKeyed keys c
      → Made k owning contents one_mode user fields key secret
      → OnOk (λ s v. (keys v).secret_at (place_of user) ≡ some s) x w
      → Post Aim (create_after_get r c user secret key x) w
  unfolding create_after_get
  create_after_get-Kept c secret key (ok existing) w keyed made found =
      create_with_existing-Kept c secret existing key _ w keyed made found
  create_after_get-Kept c secret key (err e) w keyed made found = elim (Bool-cases e.is_not_found) [
    | inl q ↦
        simp q
          (create_with_secret-Kept k owning contents one_mode user fields c secret key w keyed made)
    | inr q ↦ simp q (failing k owning contents one_mode user fields _ _ e w)
  ]

  create_with_key-Kept :
      (c : S3Client W) (key : Option String) (w : W)
      → IsKeyed keys c
      → Post Aim (create_with_key r c user key) w
  unfolding create_with_key new_secret_for_cr unowned_secret
  create_with_key-Kept c none w keyed = record { at = tt }
  create_with_key-Kept c (some key) w keyed =
      Post-attempt _ _ _ w (pure-Finds _ w)
        (λ e v. failing k owning contents one_mode user fields _ _ e v)
        λ secret v (made, _).
          let named = owning.set_controller_reference_lem user.meta _ secret made in
          let filled = contents user.meta _ secret made in
          Post-bind _ _ v
            (subst
              (λ n.
                Post (OnOk (λ s v. (keys v).secret_at n ≡ some s))
                  (r.secrets.get (secret_key secret)) v)
              named (k.found_secret_lem (secret_key secret) v))
            λ x u found.
              create_after_get-Kept c secret key x u keyed (named, (c.get_config, filled)) found

  handle_create-Stores : (w : W) → Post Aim (handle_create r user) w
  unfolding handle_create with_client set_reconciled_condition
  handle_create-Stores w =
      Post-attempt _ _ _ w (asking-Keyed k owning contents one_mode user fields _ _ w)
        (λ e v. failing k owning contents one_mode user fields _ _ e v)
        λ c v (keyed, _).
          Post-attempt _ _ _ v (Post-any _ v)
            (λ e u. failing k owning contents one_mode user fields _ _ e u)
            (λ key u _. create_with_key-Kept c key u keyed)

  -- Where the API server keeps what it has taken, and no other call changes a secret or a secret
  -- key, SetControllerReference keeps the name and the content of a secret, the operator is not
  -- set both to override and to read existing secrets, and the two fields that the spec names are
  -- neither the same nor one of the operator's own: if the creation of a user returns no error,
  -- then the API server has the user's secret, and either that has the access key and the secret
  -- key with which the user is on the backend; or the operator reads existing secrets, and the
  -- secret has the secret key with which the user is on the backend; or it reads them, and the
  -- secret has no such field.
  pub handle_create-Kept :
      (w v : W) (a : Outcome)
      → handle_create r user w ≡ (returned a, v)
      → a.error ≡ none
      → Kept r.read_existing_secret user (keys v)
  handle_create-Kept w v a run fine = Post-run _ w (handle_create-Stores w) a v run fine
