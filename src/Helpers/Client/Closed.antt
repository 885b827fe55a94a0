-- ===== src/Helpers/Client/Closed.antt =====
-- Asking for a client is a chain of reads of the API server and a call of the factory.
use s3_operator.Prelude.{String, ◌==◌, List, [], ◌∷◌, Bool-cases, inl, inr}
use s3_operator.Effect.{Result, Eff}
use s3_operator.Effect.Closed.{IsClosed, attempt-Closed}
use s3_operator.Api.{S3Instance, Secret, Condition, NamespacedName, reconciled}
use s3_operator.S3.{S3Config, S3Client}
use s3_operator.Cluster.{Reconciler}
use s3_operator.Helpers.Namespaces.{is_allowed_namespaces}
use s3_operator.Helpers.Client.{
  get_s3_instance_access_secret, get_s3_instance_ca_cert_secret, ca_certificates,
  get_s3_client_from_s3_instance, client_if_ready, client_if_allowed, get_s3_client_for_ressource,
}

module _ {W : Type 0} {K : (A : Type 0) → Eff W A → Type 0} (closed : IsClosed K) (r : Reconciler W)
    (instances : (k : NamespacedName) → K (Result S3Instance) (r.s3_instances.get k))
    (secrets : (k : NamespacedName) → K (Result Secret) (r.secrets.get k))
    (generates : (p : String) (g : S3Config)
      → K (Result (S3Client W)) (r.s3_factory.generate_s3_client p g)) where
  pub access_secret-Closed :
      (s : S3Instance) → K (Result Secret) (get_s3_instance_access_secret r s)
  unfolding get_s3_instance_access_secret
  access_secret-Closed s =
      attempt-Closed closed _ _ _ (secrets _) (λ e. closed.pure_lem _) (λ a. closed.pure_lem _)

  ca_cert_secret-Closed : (s : S3Instance) → K (Result Secret) (get_s3_instance_ca_cert_secret r s)
  unfolding get_s3_instance_ca_cert_secret
  ca_cert_secret-Closed s = elim (Bool-cases (s.spec.ca_cert_secret_ref == "")) [
    | inl e ↦ rw e (closed.pure_lem _)
    | inr e ↦
        rw e (
          attempt-Closed closed _ _ _ (secrets _) (λ e. closed.pure_lem _) (λ a. closed.pure_lem _))
  ]

  pub ca_certificates-Closed : (s : S3Instance) → K (Result (List String)) (ca_certificates r s)
  unfolding ca_certificates
  ca_certificates-Closed s = elim (Bool-cases (s.spec.ca_cert_secret_ref == "")) [
    | inl e ↦ rw e (closed.pure_lem _)
    | inr e ↦ rw e (
        attempt-Closed closed _ _ _ (ca_cert_secret-Closed s) (λ e. closed.pure_lem _)
          (λ a. closed.pure_lem _))
  ]

  from_s3_instance-Closed :
      (s : S3Instance) → K (Result (S3Client W)) (get_s3_client_from_s3_instance r s)
  unfolding get_s3_client_from_s3_instance
  from_s3_instance-Closed s =
      attempt-Closed closed _ _ _ (access_secret-Closed s) (λ e. closed.pure_lem _)
        λ secret.
          attempt-Closed closed _ _ _ (ca_certificates-Closed s) (λ e. closed.pure_lem _)
            λ certificates. generates _ _

  if_ready-Closed :
      (s : S3Instance) (cs : List Condition) → K (Result (S3Client W)) (client_if_ready r s cs)
  unfolding client_if_ready
  if_ready-Closed s [] = closed.panic_lem _
  if_ready-Closed s (c ∷ cs) = elim (Bool-cases (c.reason == reconciled)) [
    | inl e ↦ rw e (from_s3_instance-Closed s)
    | inr e ↦ rw e (closed.pure_lem _)
  ]

  -- What holds of these calls holds of the chain.
  pub for_ressource-Closed :
      (ns ref : String) → K (Result (S3Client W)) (get_s3_client_for_ressource r ns ref)
  unfolding get_s3_client_for_ressource client_if_allowed
  for_ressource-Closed ns ref =
      attempt-Closed closed _ _ _ (instances _) (λ e. closed.pure_lem _)
        λ s. elim (Bool-cases (is_allowed_namespaces ns s)) [
          | inl e ↦ rw e (if_ready-Closed s s.conditions)
          | inr e ↦ rw e (closed.pure_lem _)
        ]
