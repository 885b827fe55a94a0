-- ===== src/Helpers/Client.antt =====
-- internal/helpers/s3instance.go: from a reference to an S3 instance to a client of its backend.
pub mod Closed
pub mod Refused
pub mod Connects
pub mod Serves
pub mod Gives
pub mod Reached
use s3_operator.Prelude.{
  String, ◌++◌, false, not, ◌==◌, none, List, [], ◌∷◌, is_empty, if◌then◌else◌,
}
use s3_operator.Effect.{Error, errorf, Result, ok, err, Eff, pure, panic, ◌>>=◌, attempt}
use s3_operator.Api.{Condition, reconciled, Secret, S3Instance}
use s3_operator.S3.{S3Config, S3Client}
use s3_operator.Cluster.{Reconciler}
use s3_operator.Helpers.InstanceRef.{S3InstanceInfo, get_s3_instance_ref_info}
use s3_operator.Helpers.Namespaces.{is_allowed_namespaces}

-- `if k8sapierrors.IsNotFound(err) { return fmt.Errorf(…) }; return err`
abbrev pub renamed : String → Error → Error
renamed text e = if e.is_not_found then errorf text else e

-- `string(secret.Data[key])`, which is empty for a missing key.
unfoldable pub value_of : String → List (String × String) → String
value_of key [] = ""
value_of key ((k, v) ∷ rest) = if k == key then v else value_of key rest

abbrev pub empty_secret : Secret
empty_secret = record {
  meta = record {
    name = "";
    namespace = "";
    uid = "";
    generation = 0;
    deletion_timestamp = none;
    finalizers = [];
    labels = [];
    annotations = [];
    owner_references = [];
  };
  content = [];
  type = "";
}

abbrev pub secret_not_found : String → String → String
secret_not_found name namespace = "secret " ++ (name ++ (" not found in namespace " ++ namespace))

abbrev pub instance_not_found : String → String
instance_not_found name = "S3Instance " ++ (name ++ " not found")

-- The configuration that `GetS3ClientFromS3Instance` builds; the fields it does not name are zero.
abbrev pub config_of : S3Instance → Secret → List String → S3Config
config_of s3_instance secret ca_certificates = record {
  s3_provider = s3_instance.spec.s3_provider;
  s3_url = s3_instance.spec.url;
  region = s3_instance.spec.region;
  access_key = value_of "S3_ACCESS_KEY" secret.content;
  secret_key = value_of "S3_SECRET_KEY" secret.content;
  ca_certificates_base64 = ca_certificates;
  allowed_namespaces =
      if is_empty s3_instance.spec.allowed_namespaces
      then s3_instance.namespace ∷ []
      else s3_instance.spec.allowed_namespaces;
  bucket_deletion_enabled = s3_instance.spec.bucket_deletion_enabled;
  s3_user_deletion_enabled = s3_instance.spec.s3_user_deletion_enabled;
  path_deletion_enabled = s3_instance.spec.path_deletion_enabled;
  policy_deletion_enabled = s3_instance.spec.policy_deletion_enabled;
  secure = false;
  endpoint = "";
  port = "";
  scheme = "";
  path_style = false;
}

module _ {W : Type 0} (r : Reconciler W) where
  -- `getS3InstanceAccessSecret`
  unfoldable pub get_s3_instance_access_secret : S3Instance → Eff W (Result Secret)
  get_s3_instance_access_secret s3_instance =
      attempt
        (r.secrets.get
          (record { namespace = s3_instance.namespace; name = s3_instance.spec.secret_ref }))
        (λ e.
          pure
            (err (renamed (secret_not_found s3_instance.spec.secret_ref s3_instance.namespace) e)))
        λ secret. pure (ok secret)

  -- `getS3InstanceCaCertSecret`
  pub get_s3_instance_ca_cert_secret : S3Instance → Eff W (Result Secret)
  get_s3_instance_ca_cert_secret s3_instance =
      if s3_instance.spec.ca_cert_secret_ref == ""
      then pure (ok empty_secret)
      else attempt
          (r.secrets.get (record {
            namespace = s3_instance.namespace;
            name = s3_instance.spec.ca_cert_secret_ref;
          }))
          (λ e. pure (
            err (
              renamed (secret_not_found s3_instance.spec.ca_cert_secret_ref s3_instance.namespace)
                e)))
          λ secret. pure (ok secret)

  -- The certificates, if the instance refers to any.
  unfoldable pub ca_certificates : S3Instance → Eff W (Result (List String))
  ca_certificates s3_instance =
      if not (s3_instance.spec.ca_cert_secret_ref == "")
      then attempt (get_s3_instance_ca_cert_secret s3_instance) (λ e. pure (err e))
          (λ secret. pure (ok (value_of "ca.crt" secret.content ∷ [])))
      else pure (ok [])

  -- `GetS3ClientFromS3Instance`
  unfoldable pub get_s3_client_from_s3_instance : S3Instance → Eff W (Result (S3Client W))
  get_s3_client_from_s3_instance s3_instance =
      attempt (get_s3_instance_access_secret s3_instance) (λ e. pure (err e))
        λ secret.
          attempt (ca_certificates s3_instance) (λ e. pure (err e))
            λ certificates.
              r.s3_factory.generate_s3_client s3_instance.spec.s3_provider
                (config_of s3_instance secret certificates)

  -- `s3Instance.Status.Conditions[0].Reason != Reconciled`: on an instance with no conditions the
  -- index is out of range, and the handler panics.
  unfoldable pub client_if_ready : S3Instance → List Condition → Eff W (Result (S3Client W))
  client_if_ready s3_instance [] = panic
  client_if_ready s3_instance (c ∷ _) =
      if not (c.reason == reconciled)
      then pure (err (errorf "S3instance is not in a ready state"))
      else get_s3_client_from_s3_instance s3_instance

  unfoldable pub client_if_allowed :
      String → S3InstanceInfo → S3Instance → Eff W (Result (S3Client W))
  client_if_allowed ressource_namespace info s3_instance =
      if not (is_allowed_namespaces ressource_namespace s3_instance)
      then pure (err (errorf (instance_not_found info.name)))
      else client_if_ready s3_instance s3_instance.conditions

  -- `GetS3ClientForRessource`; the resource's name is only logged there.
  unfoldable pub get_s3_client_for_ressource : String → String → Eff W (Result (S3Client W))
  get_s3_client_for_ressource ressource_namespace ressource_s3_instance_ref =
      let info = get_s3_instance_ref_info ressource_s3_instance_ref ressource_namespace in
      attempt (r.s3_instances.get (record { namespace = info.namespace; name = info.name }))
        (λ e. pure (err (renamed (instance_not_found info.name) e)))
        λ s3_instance. client_if_allowed ressource_namespace info s3_instance
