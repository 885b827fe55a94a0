-- ===== src/Helpers/Client/Reached.antt =====
-- internal/helpers/s3instance.go: a resource whose instance may be used and is ready is given a
-- client, if the calls on the way go through.
use s3_operator.Prelude.{String, true, false, ◌==◌, ◌≡◌, List, [], ◌∷◌, Bool-cases, inl, inr}
use s3_operator.Effect.Settles.{Yields, Yields-attempt, Yields-pure}
use s3_operator.Api.{Condition, Secret, S3Instance, reconciled}
use s3_operator.S3.{S3Client}
use s3_operator.Cluster.{Reconciler}
use s3_operator.Helpers.Namespaces.{is_allowed_namespaces}
use s3_operator.Helpers.Client.Refused.{instance_key}
use s3_operator.Helpers.Client.{
  config_of, get_s3_instance_access_secret, get_s3_instance_ca_cert_secret, ca_certificates,
  get_s3_client_from_s3_instance, client_if_ready, client_if_allowed, get_s3_client_for_ressource,
}

-- The first condition says that the instance is reconciled.
abbrev pub IsReady : List Condition → Type 0
IsReady [] = ⊥
IsReady (c ∷ cs) = (c.reason == reconciled) ≡ true

-- The namespace may use the instance, which is ready.
abbrev pub Usable : String → S3Instance → Type 0
Usable namespace i = (is_allowed_namespaces namespace i ≡ true) × IsReady i.conditions

-- What goes through on the way from a reference to a client of which `P` holds: the instance that
-- the reference names is there, and `I` holds of it.
pub record Reachable {W : Type 0} (r : Reconciler W) (namespace ref : String)
    (I : S3Instance → Type 0) (P : S3Client W → Type 0) : Type 0 where
  pub instance_lem :
      Yields (λ i. Usable namespace i × I i) (r.s3_instances.get (instance_key namespace ref))
  pub secrets_lem :
      (i : S3Instance)
      → I i
      → Yields
          (λ _. Unit)
          (r.secrets.get (record { namespace = i.namespace; name = i.spec.secret_ref }))
  pub certificates_lem :
      (i : S3Instance)
      → I i
      → (i.spec.ca_cert_secret_ref == "") ≡ false
      → Yields
          (λ _. Unit)
          (r.secrets.get (record { namespace = i.namespace; name = i.spec.ca_cert_secret_ref }))
  pub factory_lem :
      (i : S3Instance) (secret : Secret) (certificates : List String)
      → I i
      → Yields P
          (r.s3_factory.generate_s3_client i.spec.s3_provider (config_of i secret certificates))

module _ {W : Type 0} {r : Reconciler W} {namespace ref : String} {I : S3Instance → Type 0}
    {P : S3Client W → Type 0} (h : Reachable r namespace ref I P) where
  access_secret-Yields :
      (i : S3Instance) → I i → Yields (λ _. Unit) (get_s3_instance_access_secret r i)
  unfolding get_s3_instance_access_secret
  access_secret-Yields i t = Yields-attempt _ _ _ (h.secrets_lem i t) (λ a _. Yields-pure a tt)

  ca_cert_secret-Yields :
      (i : S3Instance) → I i → Yields (λ _. Unit) (get_s3_instance_ca_cert_secret r i)
  unfolding get_s3_instance_ca_cert_secret
  ca_cert_secret-Yields i t = elim (Bool-cases (i.spec.ca_cert_secret_ref == "")) [
    | inl e ↦ rw e (Yields-pure _ tt)
    | inr e ↦ rw e (Yields-attempt _ _ _ (h.certificates_lem i t e) (λ a _. Yields-pure a tt))
  ]

  ca_certificates-Yields : (i : S3Instance) → I i → Yields (λ _. Unit) (ca_certificates r i)
  unfolding ca_certificates
  ca_certificates-Yields i t = elim (Bool-cases (i.spec.ca_cert_secret_ref == "")) [
    | inl e ↦ rw e (Yields-pure _ tt)
    | inr e ↦ rw e (Yields-attempt _ _ _ (ca_cert_secret-Yields i t) (λ a _. Yields-pure _ tt))
  ]

  from_s3_instance-Yields : (i : S3Instance) → I i → Yields P (get_s3_client_from_s3_instance r i)
  unfolding get_s3_client_from_s3_instance
  from_s3_instance-Yields i t = Yields-attempt _ _ _ (access_secret-Yields i t) λ secret _.
      Yields-attempt _ _ _ (ca_certificates-Yields i t)
        λ certificates _. h.factory_lem i secret certificates t

  if_ready-Yields :
      (i : S3Instance) (cs : List Condition) → IsReady cs → I i → Yields P (client_if_ready r i cs)
  unfolding client_if_ready
  if_ready-Yields i [] ready t = absurd ready
  if_ready-Yields i (c ∷ cs) ready t = rw ready (from_s3_instance-Yields i t)

  pub for_ressource-Yields : Yields P (get_s3_client_for_ressource r namespace ref)
  unfolding get_s3_client_for_ressource client_if_allowed
  for_ressource-Yields =
      Yields-attempt _ _ _ h.instance_lem
        λ i ((allowed, ready), t). rw allowed (if_ready-Yields i i.conditions ready t)
