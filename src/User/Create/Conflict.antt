-- ===== src/User/Create/Conflict.antt =====
-- A secret that another S3User owns is not taken over.
use s3_operator.Prelude.{
  ℕ, String, true, false, not, ◌&&◌, ◌==◌, ◌≡◌, ◌≢◌, refl, sym, ◌∙◌, subst, Option, none, some,
  List, [], ◌∷◌, is_some, Bool-cases, inl, inr, eq_iff, arith,
}
use s3_operator.Effect.{Error, Result, ok, err, returned, Outcome}
use s3_operator.Effect.Post.{Post, Post-bind, Post-both, Post-weaken, Post-handle, Post-run}
use s3_operator.Effect.Leaves.{Leaves}
use s3_operator.Api.{OwnerReference, S3User, Secret}
use s3_operator.S3.{S3Client}
use s3_operator.S3.Backend.{Backend}
use s3_operator.Cluster.{Reconciler}
use s3_operator.Cluster.Laws.{IsConnected, IsReporting, IsOwning}
use s3_operator.Helpers.Condition.Reports.{report-error, report-Leaves}
use s3_operator.Helpers.Client.Connects.{for_ressource-Leaves}
use s3_operator.Password.Quiet.{generate-Leaves}
use s3_operator.User.Secrets.{secret_name_of, unowned_secret, new_secret_for_cr}
use s3_operator.User.Create.{
  conflicting_owner, set_reconciled_condition, with_client, create_with_existing, create_after_get,
  create_with_key, handle_create, secret_content,
}

-- One of the owners is an S3User with another UID.
pub data OtherOwner (uid : String) : List OwnerReference → Type 0 where
  here :
      {ref : OwnerReference} {refs : List OwnerReference}
      → ref.kind ≡ "S3User"
      → ref.uid ≢ uid
      → OtherOwner uid (ref ∷ refs)
  there :
      {ref : OwnerReference} {refs : List OwnerReference}
      → OtherOwner uid refs
      → OtherOwner uid (ref ∷ refs)

conflicting_owner-some :
    (uid : String) (refs : List OwnerReference)
    → OtherOwner uid refs
    → (ref : OwnerReference) × (conflicting_owner uid refs ≡ some ref)
unfolding conflicting_owner
conflicting_owner-some uid [] o = elim o [ ]
conflicting_owner-some uid (ref ∷ refs) o =
    elim (Bool-cases (ref.kind == "S3User" && not (ref.uid == uid))) [
      | inl e ↦ (ref, rw e refl)
      | inr e ↦ elim o [
        | OtherOwner.here k u ↦
            absurd (u (ground (arith, e, k, eq_iff ref.kind "S3User", eq_iff ref.uid uid)))
        | OtherOwner.there o ↦ let (x, h) = conflicting_owner-some uid refs o in (x, rw e h)
      ]
    ]

-- What the query for the secret of the user's name answers: a secret that another S3User owns, or
-- an error that does not say that there is none.
abbrev pub IsTaken : S3User → Result Secret → Type 0
IsTaken user (ok existing) = OtherOwner user.uid existing.owner_references
IsTaken user (err e) = e.is_not_found ≡ false

module _ {W : Type 0} {view : W → Backend} {r : Reconciler W} (k : IsConnected view r)
    (reporting : IsReporting view r.s3_users) (owning : IsOwning r.machinery)
    (quiet : (m : ℕ) → Leaves view (r.rand_int m)) (user : S3User)
    (taken : (w : W)
      → Post
          (λ x _. IsTaken user x)
          (r.secrets.get (record { namespace = user.namespace; name = secret_name_of user }))
          w) where
  -- The handler ends with an error, and the backend is as it was.
  abbrev Refused : W → Outcome → W → Type 0
  Refused w a v = (is_some a.error ≡ true) × (view v ≡ view w)

  report-Refused :
      (reason message : String) (e : Error) (w v : W)
      → view v ≡ view w
      → Post (Refused w) (set_reconciled_condition r user reason message (some e)) v
  unfolding set_reconciled_condition
  report-Refused reason message e w v same =
      Post-weaken _ v (λ a u (h, q). (h, q ∙ same))
        (Post-both _ _ _ v (report-error r r.s3_users user reason message e v)
          (report-Leaves r r.s3_users reporting user reason message (some e) v))

  create_after_get-Refused :
      (c : S3Client W) (secret : Secret) (key : String) (x : Result Secret) (w v : W)
      → view v ≡ view w
      → IsTaken user x
      → Post (Refused w) (create_after_get r c user secret key x) v
  unfolding create_after_get create_with_existing
  create_after_get-Refused c secret key (err e) w v same t = simp t (report-Refused _ _ e w v same)
  create_after_get-Refused c secret key (ok existing) w v same t =
      let (ref, q) = conflicting_owner-some user.uid existing.owner_references t in
      rw q (report-Refused _ _ _ w v same)

  create_with_key-Refused :
      (c : S3Client W) (key : Option String) (w v : W)
      → view v ≡ view w
      → Post (Refused w) (create_with_key r c user key) v
  unfolding create_with_key new_secret_for_cr unowned_secret
  create_with_key-Refused c none w v same = record { at = tt }
  create_with_key-Refused c (some key) w v same =
      let made = new_secret_for_cr r user (secret_content user c.get_config key) in
      Post-handle (λ x u. (made ≡ x) × (view u ≡ view w)) _ _ _ v (record { at = (refl, same) })
        (λ e u (_, q). report-Refused _ _ e w u q)
        λ secret u (owned, q).
          let named = owning.set_controller_reference_lem user.meta _ secret owned in
          Post-bind {P = λ x t. IsTaken user x × (view t ≡ view w)} _ _ u
            (subst (λ n. Post (λ x t. IsTaken user x × (view t ≡ view w)) (r.secrets.get n) u)
              (sym named)
              (Post-both _ _ _ u (taken u)
                (Post-weaken _ u (λ x t e. e ∙ q) (k.get_secret_lem _ u))))
            λ x t (is_taken, same'). create_after_get-Refused c secret key x w t same' is_taken

  handle_create-Refused : (w : W) → Post (Refused w) (handle_create r user) w
  unfolding handle_create with_client set_reconciled_condition
  handle_create-Refused w =
      Post-handle (λ _ v. view v ≡ view w) _ _ _ w (for_ressource-Leaves k _ _ w)
        (λ e v same. report-Refused _ _ e w v same)
        λ c v same.
          Post-handle (λ _ u. view u ≡ view w) _ _ _ v
            (Post-weaken _ v (λ _ u e. e ∙ same) (generate-Leaves quiet 20 true false true v))
            (λ e u q. report-Refused _ _ e w u q) λ key u q. create_with_key-Refused c key w u q

  -- Where the API server's calls, making a client and the random source leave the backend alone,
  -- and SetControllerReference keeps the name of a secret: if the query for the secret that a new
  -- S3User would have always answers with one that another S3User owns, or fails, and the creation
  -- of the new S3User returns, then it returns an error, and nothing has changed on the backend.
  pub handle_create-conflict :
      (w v : W) (a : Outcome)
      → handle_create r user w ≡ (returned a, v)
      → (is_some a.error ≡ true) × (view v ≡ view w)
  handle_create-conflict w v a run = Post-run _ w (handle_create-Refused w) a v run
