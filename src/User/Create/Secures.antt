-- ===== src/User/Create/Secures.antt =====
-- A call in the creation of a user keeps the secret and the key of the user in line.
use s3_operator.Prelude.{
  String, true, false, ◌&&◌, ◌≡◌, refl, sym, ◌∙◌, ap, subst, none, some, Option-cases, inl, inr,
  eq_refl,
}
use s3_operator.Effect.{Error, ok, Eff, Outcome}
use s3_operator.Effect.Post.{
  OnOk, Post, Post-any, Post-ok, Post-attempt, Post-weaken, Post-ok_both, Sound,
}
use s3_operator.Effect.Leaves.{Leaves}
use s3_operator.Effect.Closed.{Leaves-IsClosed}
use s3_operator.Api.{S3User, Secret, ObjectMeta}
use s3_operator.S3.{S3Config, S3Client}
use s3_operator.Cluster.{Reconciler}
use s3_operator.Cluster.Laws.{IsOwning, OnOk-Leaves, secret_key}
use s3_operator.Helpers.Client.{get_s3_client_for_ressource}
use s3_operator.Helpers.Client.Closed.{for_ressource-Closed}
use s3_operator.Helpers.Client.Gives.{for_ressource-Gives}
use s3_operator.Helpers.Condition.Closed.{report-Closed}
use s3_operator.Helpers.Condition.Reports.{report-Sound}
use s3_operator.User.Secrets.{secret_name_of, add_policies_to_user}
use s3_operator.User.Create.{
  set_reconciled_condition, create_user, add_policies, create_with_secret, override_secret,
  secret_content, read_secret_key,
}
use s3_operator.User.Create.Keys.{Keys, with_key, store, IsKeyed, IsKeeping, place_of, Kept}
use s3_operator.User.Create.Content.{
  value_at, HasFields, content_secret_key, content_access_key, read_secret_key-value_at,
}

module _ {W : Type 0} {keys : W → Keys} {r : Reconciler W} (k : IsKeeping keys r)
    (owning : IsOwning r.machinery)
    (contents : (m : ObjectMeta) (s t : Secret)
      → r.machinery.set_controller_reference m s ≡ ok t
      → t.content ≡ s.content)
    (one_mode : (r.override_existing_secret && r.read_existing_secret) ≡ false) (user : S3User)
    (fields : HasFields user) where
  abbrev Aim : Outcome → W → Type 0
  Aim = Sound (λ v. Kept r.read_existing_secret user (keys v))

  pub failing :
      (reason message : String) (e : Error) (w : W)
      → Post Aim (set_reconciled_condition r user reason message (some e)) w
  unfolding set_reconciled_condition
  failing reason message e w = report-Sound r r.s3_users user reason message e w

  asking-Leaves : (ns ref : String) → Leaves keys (get_s3_client_for_ressource r ns ref)
  asking-Leaves =
      for_ressource-Closed (Leaves-IsClosed keys) r k.get_instance_lem k.get_secret_lem
        k.generate_leaves_lem

  -- A client is given, and no key has changed.
  pub asking-Keyed :
      (ns ref : String) (w : W)
      → Post
          (OnOk (λ c v. IsKeyed keys c × (keys v ≡ keys w)))
          (get_s3_client_for_ressource r ns ref)
          w
  asking-Keyed ns ref w =
      Post-ok_both _ w
        (for_ressource-Gives r (λ _. Unit) (IsKeyed keys) (λ n v. Post-any _ v)
          (λ i secret certificates v _. k.generate_lem _ _ v) ns ref w)
        (OnOk-Leaves _ (asking-Leaves ns ref) w)

  add_policies_to_user-Leaves :
      (w : W) → Post (OnOk (λ _ v. keys v ≡ keys w)) (add_policies_to_user r user) w
  unfolding add_policies_to_user
  add_policies_to_user-Leaves w =
      Post-attempt _ _ _ w (asking-Keyed _ _ w) (λ e v. record { at = tt })
        λ c v (keyed, same). elim (Option-cases user.spec.policies) [
          | inl nil ↦ simp nil (record { at = same })
          | inr (ps, listed) ↦ simp listed (
              Post-ok _ v (λ _ u e. e ∙ same)
                (OnOk-Leaves _ (keyed.add_policies_to_user_lem user.spec.access_key ps) v))
        ]

  add_policies-Kept :
      (message : String) (w : W)
      → Kept r.read_existing_secret user (keys w)
      → Post Aim (add_policies r user message) w
  unfolding add_policies set_reconciled_condition
  add_policies-Kept message w h =
      Post-attempt _ _ _ w (add_policies_to_user-Leaves w) (λ e v. failing _ _ e v)
        λ _ v same.
          Post-weaken _ v (λ a u e _. subst (Kept r.read_existing_secret user) (sym (e ∙ same)) h)
            (report-Closed (Leaves-IsClosed keys) r r.s3_users k.report_lem user _ _ none v)

  -- The secret that is made for the user with a key.
  abbrev pub Made : String → Secret → Type 0
  Made key secret =
      (secret_key secret ≡ place_of user)
      × ((g : S3Config) × (secret.content ≡ secret_content user g key))

  store_lem :
      (key : String) (secret : Secret) (s : Keys)
      → Made key secret
      → (store secret s).secret_at (place_of user) ≡ some secret
  store_lem key secret s (named, _) =
      rw
        (
          ap (λ n. n.namespace) named,
          ap (λ n. n.name) named,
          eq_refl user.namespace,
          eq_refl (secret_name_of user),
        )
        refl

  stored-Kept :
      (key : String) (secret : Secret) (s : Keys)
      → Made key secret
      → s.secret_key_of user.spec.access_key ≡ some key
      → Kept r.read_existing_secret user (store secret s)
  stored-Kept key secret s made h =
      let (_, (g, content)) = made in
      Kept.written secret key (store_lem key secret s made)
        (ap (value_at user.spec.secret_field_name_access_key) content
          ∙ content_access_key user fields g key)
        (ap (value_at user.spec.secret_field_name_secret_key) content
          ∙ content_secret_key user fields g key)
        h

  -- The user is created with a key; what follows finds it there.
  create_user-Kept :
      (c : S3Client W) (key : String) (rest : Eff W Outcome) (w : W)
      → IsKeyed keys c
      → ((v : W)
          → keys v ≡ with_key user.spec.access_key key (keys w)
          → (keys v).secret_key_of user.spec.access_key ≡ some key
          → Post Aim rest v)
      → Post Aim (create_user r c user key rest) w
  unfolding create_user
  create_user-Kept c key rest w keyed go =
      Post-attempt _ _ _ w (keyed.create_user_lem user.spec.access_key key w)
        (λ e v. failing _ _ e v)
        λ _ v e. go v e (
          ap (λ s. s.secret_key_of user.spec.access_key) e ∙ rw (eq_refl user.spec.access_key) refl)

  pub create_with_secret-Kept :
      (c : S3Client W) (secret : Secret) (key : String) (w : W)
      → IsKeyed keys c
      → Made key secret
      → Post Aim (create_with_secret r c user secret key) w
  unfolding create_with_secret
  create_with_secret-Kept c secret key w keyed made = create_user-Kept c key _ w keyed λ v _ there.
      Post-attempt _ _ _ v (k.create_secret_lem secret v) (λ e u. failing _ _ e u)
        λ _ u e. add_policies-Kept _ u (
          subst (Kept r.read_existing_secret user) (sym e)
            (stored-Kept key secret (keys v) made there))

  -- The operator overwrites secrets, and reads none.
  pub overriding-Kept :
      (c : S3Client W) (secret : Secret) (key message : String) (w : W)
      → r.override_existing_secret ≡ true
      → IsKeyed keys c
      → Made key secret
      → Post Aim
          (create_user r c user key (override_secret r user secret (add_policies r user message)))
          w
  unfolding override_secret
  overriding-Kept c secret key message w on keyed made =
      create_user-Kept c key _ w keyed λ v _ there. simp on (
        Post-attempt _ _ _ v (k.update_secret_lem secret v) (λ e u. failing _ _ e u)
          λ _ u e. add_policies-Kept _ u (
            subst (Kept r.read_existing_secret user) (sym e)
              (stored-Kept key secret (keys v) made there)))

  -- The key that is read is the one of the existing secret, if it has the field.
  read-Kept :
      (existing : Secret) (key : String) (s : Keys)
      → r.read_existing_secret ≡ true
      → s.secret_at (place_of user) ≡ some existing
      → s.secret_key_of user.spec.access_key
        ≡ some (read_secret_key user.spec.secret_field_name_secret_key key existing.content)
      → Kept r.read_existing_secret user s
  read-Kept existing key s reads there h =
      elim (Option-cases (value_at user.spec.secret_field_name_secret_key existing.content)) [
        | inl nil ↦ Kept.lacking existing reads there nil
        | inr (found, e) ↦ Kept.read existing found reads there e (
            h
            ∙ ap some (
                read_secret_key-value_at user.spec.secret_field_name_secret_key key existing.content
                ∙ rw e refl))
      ]

  -- The operator reads secrets, and overwrites none.
  pub reading-Kept :
      (c : S3Client W) (secret existing : Secret) (key message : String) (w : W)
      → r.override_existing_secret ≡ false
      → r.read_existing_secret ≡ true
      → IsKeyed keys c
      → (keys w).secret_at (place_of user) ≡ some existing
      → Post Aim
          (create_user r c user
            (read_secret_key user.spec.secret_field_name_secret_key key existing.content)
            (override_secret r user secret (add_policies r user message)))
          w
  unfolding override_secret
  reading-Kept c secret existing key message w off reads keyed found =
      create_user-Kept c _ _ w keyed λ v e there. simp off (
        add_policies-Kept _ v (
          read-Kept existing key (keys v) reads (ap (λ s. s.secret_at (place_of user)) e ∙ found)
            there))
