-- ===== src/Api.antt =====
-- The custom resources of api/v1alpha1, and of Kubernetes' own types what the operator reads and
-- writes. What stands under the kinds' `Status` is the list of conditions, the same for all five.
use s3_operator.Prelude.{ℕ, String, Bool, Option, List, ℤ}

pub data ConditionStatus : Type 0 where
  condition_true condition_false condition_unknown : ConditionStatus

-- metav1.Condition
pub record Condition : Type 0 where
  pub type : String
  pub status : ConditionStatus
  pub observed_generation : ℕ
  pub last_transition_time : Option ℕ
  pub reason : String
  pub message : String

abbrev pub condition_reconciled : String
condition_reconciled = "Reconciled"

abbrev pub reconciling : String
reconciling = "Reconciling"

abbrev pub unreachable : String
unreachable = "Unreachable"

abbrev pub creation_failure : String
creation_failure = "CreationFailure"

abbrev pub reconciled : String
reconciled = "Reconciled"

abbrev pub deletion_failure : String
deletion_failure = "DeletionFailure"

-- types.NamespacedName
pub record NamespacedName : Type 0 where
  pub namespace : String
  pub name : String

-- metav1.OwnerReference
pub record OwnerReference : Type 0 where
  pub kind : String
  pub name : String
  pub uid : String

-- metav1.ObjectMeta
pub record ObjectMeta : Type 0 where
  pub name : String
  pub namespace : String
  pub uid : String
  pub generation : ℕ
  pub deletion_timestamp : Option ℕ
  pub finalizers : List String
  pub labels : List (String × String)
  pub annotations : List (String × String)
  pub owner_references : List OwnerReference

-- A custom resource: its metadata, its `Spec`, and `Status.Conditions`.
pub record Resource (Spec : Type 0) : Type 0 where
  pub meta : ObjectMeta
  pub open meta use *
  pub spec : Spec
  pub conditions : List Condition

-- resource.Quantity, by what the code asks of one: AsInt64, and its text under `%v`.
pub record Quantity : Type 0 where
  pub as_int64 : ℤ × Bool
  pub text : String

pub record Quota : Type 0 where
  pub default : Quantity
  pub override : Quantity

pub record BucketSpec : Type 0 where
  pub name : String
  pub paths : List String
  pub s3_instance_ref : String
  pub quota : Quota

pub record PathSpec : Type 0 where
  pub bucket_name : String
  pub paths : List String
  pub s3_instance_ref : String

pub record PolicySpec : Type 0 where
  pub name : String
  pub policy_content : String
  pub s3_instance_ref : String

-- `none` is a nil slice of policies, which the code tells from an empty one.
pub record S3UserSpec : Type 0 where
  pub access_key : String
  pub policies : Option (List String)
  pub secret_name : String
  pub s3_instance_ref : String
  pub secret_field_name_access_key : String
  pub secret_field_name_secret_key : String

pub record S3InstanceSpec : Type 0 where
  pub s3_provider : String
  pub url : String
  pub secret_ref : String
  pub region : String
  pub ca_cert_secret_ref : String
  pub allowed_namespaces : List String
  pub bucket_deletion_enabled : Bool
  pub policy_deletion_enabled : Bool
  pub path_deletion_enabled : Bool
  pub s3_user_deletion_enabled : Bool

abbrev pub Bucket : Type 0
Bucket = Resource BucketSpec

abbrev pub PathCr : Type 0
PathCr = Resource PathSpec

abbrev pub Policy : Type 0
Policy = Resource PolicySpec

abbrev pub S3User : Type 0
S3User = Resource S3UserSpec

abbrev pub S3Instance : Type 0
S3Instance = Resource S3InstanceSpec

-- corev1.Secret; the bytes of `Data` are read and written as text only.
pub record Secret : Type 0 where
  pub meta : ObjectMeta
  pub open meta use *
  pub content : List (String × String)
  pub type : String
