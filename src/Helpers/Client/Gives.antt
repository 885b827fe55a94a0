-- ===== src/Helpers/Client/Gives.antt =====
-- internal/helpers/s3instance.go: what the clients of every instance have, the client has that a
-- handler is given.
use s3_operator.Prelude.{
  String, ◌==◌, Bool, true, false, ◌≡◌, refl, ◌∙◌, subst, List, [], ◌∷◌, Bool-cases, inl, inr,
  if◌then◌else◌,
}
use s3_operator.Effect.{Eff, Result, ok, err, pure, attempt}
use s3_operator.Effect.Post.{OnOk, Post, Post-attempt, Post-any, Post-ok, Post-ok_both}
use s3_operator.Api.{NamespacedName, Condition, Secret, S3Instance, reconciled}
use s3_operator.S3.{S3Config, S3Client}
use s3_operator.S3.Backend.{Backend}
use s3_operator.S3.Laws.{IsLawful, Changes}
use s3_operator.Cluster.Laws.{IsConnected}
use s3_operator.Helpers.Client.Connects.{for_ressource-Connected}
use s3_operator.Cluster.{Reconciler}
use s3_operator.Helpers.Namespaces.{is_allowed_namespaces}
use s3_operator.Helpers.Client.{
  config_of, get_s3_client_from_s3_instance, client_if_ready, client_if_allowed,
  get_s3_client_for_ressource,
}

module _ {W : Type 0} (r : Reconciler W) (I : S3Instance → Type 0) (P : S3Client W → Type 0)
    (instances : (k : NamespacedName) (w : W) → Post (OnOk (λ i _. I i)) (r.s3_instances.get k) w)
    (generates : (i : S3Instance) (secret : Secret) (certificates : List String) (w : W)
      → I i
      → Post
          (OnOk (λ c _. P c))
          (r.s3_factory.generate_s3_client i.spec.s3_provider (config_of i secret certificates))
          w) where
  abbrev Given : Eff W (Result (S3Client W)) → W → Type 0
  Given m w = Post (OnOk (λ c _. P c)) m w

  from_s3_instance-Gives :
      (i : S3Instance) (w : W) → I i → Given (get_s3_client_from_s3_instance r i) w
  unfolding get_s3_client_from_s3_instance
  from_s3_instance-Gives i w h =
      Post-attempt _ _ _ w (Post-any _ w) (λ e v. record { at = tt })
        λ secret v _.
          Post-attempt _ _ _ v (Post-any _ v) (λ e u. record { at = tt })
            λ certificates u _. generates i secret certificates u h

  if_ready-Gives :
      (i : S3Instance) (cs : List Condition) (w : W) → I i → Given (client_if_ready r i cs) w
  unfolding client_if_ready
  if_ready-Gives i [] w h = record { at = tt }
  if_ready-Gives i (c ∷ cs) w h = elim (Bool-cases (c.reason == reconciled)) [
    | inl e ↦ rw e (from_s3_instance-Gives i w h)
    | inr e ↦ rw e (record { at = tt })
  ]

  pub for_ressource-Gives :
      (ns ref : String) (w : W) → Given (get_s3_client_for_ressource r ns ref) w
  unfolding get_s3_client_for_ressource client_if_allowed
  for_ressource-Gives ns ref w =
      Post-attempt _ _ _ w (instances _ w) (λ e v. record { at = tt })
        λ i v h. elim (Bool-cases (is_allowed_namespaces ns i)) [
          | inl e ↦ rw e (if_ready-Gives i i.conditions v h)
          | inr e ↦ rw e (record { at = tt })
        ]

-- Whether a switch of the instances that are read is on: the configuration that is made of each
-- has it so, and the factory makes clients of the configuration that it is given.
pub record Permits {W : Type 0} (switch : S3Config → Bool) (enabled : Bool) (r : Reconciler W)
    : Type 0 where
  pub instances_lem :
      (k : NamespacedName) (w : W)
      → Post
          (OnOk (λ i _.
            (secret : Secret) (certificates : List String)
            → switch (config_of i secret certificates) ≡ enabled))
          (r.s3_instances.get k)
          w
  pub factory_lem :
      (p : String) (g : S3Config) (w : W)
      → Post (OnOk (λ c _. switch c.get_config ≡ switch g)) (r.s3_factory.generate_s3_client p g) w

-- What is done where the switch is on; else nothing is.
abbrev pub Permitted : Bool → (Backend → Backend → Type 0) → Backend → Backend → Type 0
Permitted true did s t = did s t
Permitted false did s t = t ≡ s

module _ {W : Type 0} {view : W → Backend} {r : Reconciler W} (k : IsConnected view r)
    (switch : S3Config → Bool) (enabled : Bool) (permits : Permits switch enabled r)
    (did : Backend → Backend → Type 0) (act : S3Client W → Eff W (Result (Unit {0})))
    (acts : (c : S3Client W) (w : W)
      → IsLawful view c
      → Post (OnOk (Changes view did w)) (act c) w) where
  act_if-Permitted :
      (on : Bool) (c : S3Client W) (w : W)
      → IsLawful view c
      → Post
          (OnOk (λ _ v. Permitted on did (view w) (view v)))
          (if on then act c else pure (ok tt))
          w
  act_if-Permitted true c w lawful = acts c w lawful
  act_if-Permitted false c w lawful = record { at = refl }

  -- A call of the client for a resource that the switch guards.
  pub for_ressource-Permitted :
      (ns ref : String) (w : W)
      → Post
          (OnOk (λ _ v. Permitted enabled did (view w) (view v)))
          (attempt
            (get_s3_client_for_ressource r ns ref)
            (λ e. pure (err e))
            (λ c. if switch c.get_config then act c else pure (ok tt)))
          w
  for_ressource-Permitted ns ref w =
      Post-attempt _ _ _ w
        (Post-ok_both _ w (for_ressource-Connected k ns ref w) (
          for_ressource-Gives r
            (λ i.
              (secret : Secret) (certificates : List String)
              → switch (config_of i secret certificates) ≡ enabled)
            (λ c. switch c.get_config ≡ enabled) permits.instances_lem
            (λ i secret certificates v h.
              Post-ok _ v (λ c u e. e ∙ h secret certificates) (permits.factory_lem _ _ v))
            ns ref w))
        (λ e v. record { at = tt })
        λ c v ((lawful, same), on). rw on (
          subst
            (λ s.
              Post (OnOk (λ _ u. Permitted enabled did s (view u)))
                (if enabled then act c else pure (ok tt)) v)
            same (act_if-Permitted enabled c v lawful))
