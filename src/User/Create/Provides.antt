-- ===== src/User/Create/Provides.antt =====
-- What the creation of a user brings about on the backend, if it returns no error.
use mathlib.Core.Bool.{false≢true}
use s3_operator.Prelude.{
  String, Bool, true, ◌||◌, ◌≡◌, ◌≢◌, refl, sym, ◌∙◌, ap, subst, Option, none, some, List, contains,
  is_some, Bool-cases, Option-cases, inl, inr, eq_refl, arith,
}
use s3_operator.Effect.{Result, ok, err, returned, Eff, Outcome}
use s3_operator.Effect.Post.{
  OnOk, Post, Post-bind, Post-attempt, Post-always, Post-any, Post-weaken, Post-run, Sound,
}
use s3_operator.Effect.Leaves.{Leaves}
use s3_operator.Api.{S3User, Secret, OwnerReference}
use s3_operator.S3.{S3Client}
use s3_operator.S3.Backend.{Backend, with_user, attach}
use s3_operator.S3.Laws.{IsLawful, Writes}
use s3_operator.Cluster.{Reconciler}
use s3_operator.Cluster.Laws.{IsConnected, IsReporting, IsStoring, Connected}
use s3_operator.Helpers.Condition.Reports.{report-Sound, report-Leaves}
use s3_operator.Helpers.Client.Connects.{for_ressource-Connected}
use s3_operator.Helpers.Client.Serves.{for_ressource-Sound}
use s3_operator.User.Secrets.{elements, policies_of, add_policies_to_user}
use s3_operator.User.Create.{
  set_reconciled_condition, with_client, create_user, add_policies, create_with_secret,
  override_secret, create_with_existing, create_after_get, create_with_key, handle_create,
}

-- The backend has the user of a spec, with every policy of the spec.
pub record HasUser (user : S3User) (s : Backend) : Type 0 where
  pub exists : is_some (s.secret_key_of user.spec.access_key) ≡ true
  pub policies_there :
      (p : String) → contains (policies_of user) p ≡ true → s.user_has user.spec.access_key p ≡ true

module _ {W : Type 0} {view : W → Backend} {r : Reconciler W} (k : IsConnected view r)
    (reporting : IsReporting view r.s3_users) (storing : IsStoring view r.secrets)
    (user : S3User) where
  no_policy : (p : String) → user.spec.policies ≡ none → contains (policies_of user) p ≢ true
  no_policy p nil h = false≢true (ap (λ ps. contains (elements ps) p) (sym nil) ∙ h)

  by_either : (a b : Bool) → b ≡ true → (a || b) ≡ true
  by_either a b h = ground (arith, h)

  abbrev pub Exists : Backend → Type 0
  Exists s = is_some (s.secret_key_of user.spec.access_key) ≡ true

  abbrev pub Aim : Outcome → W → Type 0
  Aim = Sound (λ v. HasUser user (view v))

  pub report-HasUser :
      (reason message : String) (w : W)
      → HasUser user (view w)
      → Post Aim (set_reconciled_condition r user reason message none) w
  unfolding set_reconciled_condition
  report-HasUser reason message w h =
      Post-weaken _ w (λ a v e _. subst (HasUser user) (sym e) h)
        (report-Leaves r r.s3_users reporting user reason message none w)

  attached :
      (v : W) (ps : List String)
      → user.spec.policies ≡ some ps
      → Exists (view v)
      → (x : Result (Unit {0})) (u : W) → OnOk (Writes view (attach user.spec.access_key ps) v) x u
      → OnOk (λ _ u. HasUser user (view u)) x u
  attached v ps listed there (err e) u writes = tt
  attached v ps listed there (ok _) u writes = record {
    exists = ap (λ s. is_some (s.secret_key_of user.spec.access_key)) writes ∙ there;
    policies_there = λ p h.
        ap (λ s. s.user_has user.spec.access_key p) writes
        ∙ rw (eq_refl user.spec.access_key)
            (by_either _ _ (ap (λ ps. contains (elements ps) p) (sym listed) ∙ h));
  }

  -- The policies of the spec are attached, to a user that is there.
  add_policies_to_user-HasUser :
      (w : W)
      → Exists (view w)
      → Post (OnOk (λ _ v. HasUser user (view v))) (add_policies_to_user r user) w
  unfolding add_policies_to_user
  add_policies_to_user-HasUser w there =
      Post-attempt {P = Connected view w} _ _ _ w (for_ressource-Connected k _ _ w)
        (λ e v. record { at = tt })
        λ c v (lawful, same).
          let still = ap (λ s. is_some (s.secret_key_of user.spec.access_key)) same ∙ there in
          elim (Option-cases user.spec.policies) [
            | inl nil ↦ simp nil (record {
              at = record { exists = still; policies_there = λ p h. absurd (no_policy p nil h) };
            })
            | inr (ps, listed) ↦ simp listed (
                Post-weaken _ v (attached v ps listed still)
                  (lawful.add_policies_to_user_lem user.spec.access_key ps v))
          ]

  add_policies-HasUser :
      (message : String) (w : W) → Exists (view w) → Post Aim (add_policies r user message) w
  unfolding add_policies set_reconciled_condition
  add_policies-HasUser message w there =
      Post-attempt {P = λ _ v. HasUser user (view v)} _ _ _ w (add_policies_to_user-HasUser w there)
        (λ e v. report-Sound r r.s3_users user _ _ e v) (λ _ v h. report-HasUser _ _ v h)

  create_user-HasUser :
      (c : S3Client W) (key : String) (rest : Eff W Outcome) (w : W)
      → IsLawful view c
      → ((v : W) → Exists (view v) → Post Aim rest v)
      → Post Aim (create_user r c user key rest) w
  unfolding create_user set_reconciled_condition
  create_user-HasUser c key rest w lawful go =
      Post-attempt {P = Writes view (with_user user.spec.access_key (some key)) w} _ _ _ w
        (lawful.create_user_lem user.spec.access_key key w)
        (λ e v. report-Sound r r.s3_users user _ _ e v)
        λ _ v writes. go v (
          ap (λ s. is_some (s.secret_key_of user.spec.access_key)) writes
          ∙ rw (eq_refl user.spec.access_key) refl)

  -- A write to the secrets keeps the user.
  still_there :
      (m : Eff W (Result (Unit {0}))) (w : W)
      → Leaves view m
      → Exists (view w)
      → Post (OnOk (λ _ v. Exists (view v))) m w
  still_there m w leaves there = Post-weaken m w (on_ok w there) (leaves w)
    where
      on_ok :
          (w : W)
          → Exists (view w)
          → (x : Result (Unit {0})) (v : W) → view v ≡ view w
          → OnOk (λ _ v. Exists (view v)) x v
      on_ok w there (ok _) v e = ap (λ s. is_some (s.secret_key_of user.spec.access_key)) e ∙ there
      on_ok w there (err _) v e = tt

  create_with_secret-HasUser :
      (c : S3Client W) (secret : Secret) (key : String) (w : W)
      → IsLawful view c
      → Post Aim (create_with_secret r c user secret key) w
  unfolding create_with_secret set_reconciled_condition
  create_with_secret-HasUser c secret key w lawful = create_user-HasUser c key _ w lawful λ v there.
      Post-attempt {P = λ _ v. Exists (view v)} _ _ _ v
        (still_there _ v (storing.create_lem secret) there)
        (λ e u. report-Sound r r.s3_users user _ _ e u)
        (λ _ u there'. add_policies-HasUser _ u there')

  override_secret-HasUser :
      (secret : Secret) (message : String) (w : W)
      → Exists (view w)
      → Post Aim (override_secret r user secret (add_policies r user message)) w
  unfolding override_secret set_reconciled_condition
  override_secret-HasUser secret message w there = elim (Bool-cases r.override_existing_secret) [
    | inl e ↦ simp e (
        Post-attempt {P = λ _ v. Exists (view v)} _ _ _ w
          (still_there _ w (storing.update_lem secret) there)
          (λ x u. report-Sound r r.s3_users user _ _ x u)
          (λ _ u there'. add_policies-HasUser _ u there'))
    | inr e ↦ simp e (add_policies-HasUser _ w there)
  ]

  create_with_existing-HasUser :
      (c : S3Client W) (secret existing : Secret) (key : String) (o : Option OwnerReference) (w : W)
      → IsLawful view c
      → Post Aim (create_with_existing r c user secret existing key o) w
  unfolding create_with_existing set_reconciled_condition
  create_with_existing-HasUser c secret existing key (some ref) w lawful =
      report-Sound r r.s3_users user _ _ _ w
  create_with_existing-HasUser c secret existing key none w lawful =
      elim (Bool-cases (r.override_existing_secret || r.read_existing_secret)) [
        | inl e ↦
            simp e (
              create_user-HasUser c _ _ w lawful
                λ v there. override_secret-HasUser secret _ v there)
        | inr e ↦ simp e (report-Sound r r.s3_users user _ _ _ w)
      ]

  create_after_get-HasUser :
      (c : S3Client W) (secret : Secret) (key : String) (x : Result Secret) (w : W)
      → IsLawful view c
      → Post Aim (create_after_get r c user secret key x) w
  unfolding create_after_get set_reconciled_condition
  create_after_get-HasUser c secret key (ok existing) w lawful =
      create_with_existing-HasUser c secret existing key _ w lawful
  create_after_get-HasUser c secret key (err e) w lawful = elim (Bool-cases e.is_not_found) [
    | inl q ↦ simp q (create_with_secret-HasUser c secret key w lawful)
    | inr q ↦ simp q (report-Sound r r.s3_users user _ _ e w)
  ]

  create_with_key-HasUser :
      (c : S3Client W) (key : Option String) (w : W)
      → IsLawful view c
      → Post Aim (create_with_key r c user key) w
  unfolding create_with_key set_reconciled_condition
  create_with_key-HasUser c none w lawful = record { at = tt }
  create_with_key-HasUser c (some key) w lawful =
      Post-attempt {P = λ _ _. Unit} _ _ _ w (Post-any _ w)
        (λ e v. report-Sound r r.s3_users user _ _ e v)
        λ secret v _.
          Post-bind {P = λ _ _. Unit} _ _ v (Post-always _ v (λ _ _. tt))
            (λ x u _. create_after_get-HasUser c secret key x u lawful)

  pub handle_create-Sound :
      (w : W) → Post (Sound (λ v. HasUser user (view v))) (handle_create r user) w
  unfolding handle_create with_client set_reconciled_condition
  handle_create-Sound w = for_ressource-Sound k r.s3_users user _ _ _ _ w λ c v lawful same.
      Post-attempt {P = λ _ _. Unit} _ _ _ v (Post-any _ v)
        (λ e u. report-Sound r r.s3_users user _ _ e u)
        (λ key u _. create_with_key-HasUser c key u lawful)

  -- Where clients are lawful and the API server's calls leave the backend alone: if the creation of
  -- a user returns no error, the backend has the user, with every policy of the spec.
  handle_create-HasUser :
      (w v : W) (a : Outcome)
      → handle_create r user w ≡ (returned a, v)
      → a.error ≡ none
      → HasUser user (view v)
  handle_create-HasUser w v a run fine = Post-run _ w (handle_create-Sound w) a v run fine
