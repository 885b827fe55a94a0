-- ===== src/Helpers/Client/Connects.antt =====
-- The client that a handler is given is lawful, and to make it changes nothing on the backend.
use s3_operator.Prelude.{String, true, ◌==◌, ◌≡◌, ◌∙◌, List, [], ◌∷◌, Bool-cases, inl, inr}
use s3_operator.Effect.{Result, ok, err, Eff}
use s3_operator.Effect.Leaves.{Leaves}
use s3_operator.Effect.Closed.{Leaves-IsClosed}
use s3_operator.Helpers.Client.Closed.{
  access_secret-Closed, ca_certificates-Closed, for_ressource-Closed,
}
use s3_operator.Effect.Post.{OnOk, Post, Post-attempt, Post-weaken, Post-both, Post-handle}
use s3_operator.Api.{S3Instance, Condition, reconciled}
use s3_operator.S3.{S3Client}
use s3_operator.S3.Backend.{Backend}
use s3_operator.Cluster.{Reconciler}
use s3_operator.Cluster.Laws.{Connected, IsConnected, OnOk-Leaves, Connects-Connected}
use s3_operator.Helpers.InstanceRef.{S3InstanceInfo}
use s3_operator.Helpers.Namespaces.{is_allowed_namespaces}
use s3_operator.Helpers.Client.{
  get_s3_instance_access_secret, ca_certificates, get_s3_client_from_s3_instance, client_if_ready,
  client_if_allowed, get_s3_client_for_ressource,
}

module _ {W : Type 0} {view : W → Backend} {r : Reconciler W} (k : IsConnected view r) where
  access_secret-Leaves : (s : S3Instance) → Leaves view (get_s3_instance_access_secret r s)
  access_secret-Leaves =
      access_secret-Closed (Leaves-IsClosed view) r k.get_instance_lem k.get_secret_lem
        k.generate_leaves_lem

  ca_certificates-Leaves : (s : S3Instance) → Leaves view (ca_certificates r s)
  ca_certificates-Leaves =
      ca_certificates-Closed (Leaves-IsClosed view) r k.get_instance_lem k.get_secret_lem
        k.generate_leaves_lem

  -- Asking for a client leaves the backend alone, whether or not one is returned.
  pub for_ressource-Leaves : (ns ref : String) → Leaves view (get_s3_client_for_ressource r ns ref)
  for_ressource-Leaves =
      for_ressource-Closed (Leaves-IsClosed view) r k.get_instance_lem k.get_secret_lem
        k.generate_leaves_lem

  -- A query of the API server, whose error is passed on.
  abbrev Same : {A : Type 0} → W → A → W → Type 0
  Same w _ w' = view w' ≡ view w

  -- A client made later is connected to the world at the start.
  Connected-later :
      (m : Eff W (Result (S3Client W))) (w v : W)
      → view v ≡ view w
      → Post (OnOk (Connected view v)) m v
      → Post (OnOk (Connected view w)) m v
  Connected-later m w v e h = Post-weaken m v later h
    where
      later :
          (x : Result (S3Client W)) (u : W)
          → OnOk (Connected view v) x u
          → OnOk (Connected view w) x u
      later (ok c) u (lawful, same) = (lawful, same ∙ e)
      later (err _) u _ = tt

  -- The backend of the instance is the one of the view.
  abbrev pub Reaches : S3Instance → Type 0
  Reaches s = k.serves s.spec.s3_provider s.spec.url ≡ true

  pub from_s3_instance-Connected :
      (s : S3Instance) (w : W)
      → Reaches s
      → Post (OnOk (Connected view w)) (get_s3_client_from_s3_instance r s) w
  unfolding get_s3_client_from_s3_instance
  from_s3_instance-Connected s w reaches =
      Post-attempt {P = Same w} _ _ _ w (OnOk-Leaves _ (access_secret-Leaves s) w)
        (λ e v. record { at = tt })
        λ secret v e. Connected-later _ w v e (
          Post-attempt {P = Same v} _ _ _ v (OnOk-Leaves _ (ca_certificates-Leaves s) v)
            (λ e v. record { at = tt })
            λ certificates u f.
              Connected-later _ v u f
                (Post-weaken _ u (Connects-Connected view u) (k.generate_lem _ _ u reaches)))

  if_ready-Connected :
      (s : S3Instance) (cs : List Condition) (w : W)
      → Reaches s
      → Post (OnOk (Connected view w)) (client_if_ready r s cs) w
  unfolding client_if_ready
  if_ready-Connected s [] w reaches = record { at = tt }
  if_ready-Connected s (c ∷ cs) w reaches = elim (Bool-cases (c.reason == reconciled)) [
    | inl e ↦ rw e (from_s3_instance-Connected s w reaches)
    | inr e ↦ rw e (record { at = tt })
  ]

  if_allowed-Connected :
      (ns : String) (info : S3InstanceInfo) (s : S3Instance) (w : W)
      → Reaches s
      → Post (OnOk (Connected view w)) (client_if_allowed r ns info s) w
  unfolding client_if_allowed
  if_allowed-Connected ns info s w reaches = elim (Bool-cases (is_allowed_namespaces ns s)) [
    | inl e ↦ rw e (if_ready-Connected s s.conditions w reaches)
    | inr e ↦ rw e (record { at = tt })
  ]

  pub for_ressource-Connected :
      (ns ref : String) (w : W)
      → Post (OnOk (Connected view w)) (get_s3_client_for_ressource r ns ref) w
  unfolding get_s3_client_for_ressource
  for_ressource-Connected ns ref w =
      Post-handle (λ x v. (view v ≡ view w) × OnOk (λ s _. Reaches s) x v) _ _ _ w
        (Post-both _ _ _ w (k.get_instance_lem _ w) (k.instance_serves_lem _ w))
        (λ e v _. record { at = tt })
        λ s v (same, reaches). Connected-later _ w v same (if_allowed-Connected ns _ s v reaches)
