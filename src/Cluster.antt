-- ===== src/Cluster.antt =====
-- What the controllers take from Kubernetes' libraries, as interfaces: the API client of
-- controller-runtime, the helpers of apimachinery and controllerutil, and the
-- formatting that the code asks of `fmt` and encoding/json. None of it is code of this repository.
pub mod Laws
use s3_operator.Prelude.{ℕ, String, Bool, Option, List, ℤ}
use s3_operator.Effect.{Error, Result, Eff}
use s3_operator.Api.{
  Condition, NamespacedName, ObjectMeta, Resource, BucketSpec, PathSpec, PolicySpec, S3UserSpec,
  S3InstanceSpec, Secret,
}
use s3_operator.S3.{S3Factory}

-- client.Client on one kind. `Update` and `Status().Update` take the object through a pointer and
-- leave it as the answer of the server has it, so they return it beside the error.
pub record ResourceClient (W Spec : Type 0) : Type 0 where
  pub get : NamespacedName → Eff W (Result (Resource Spec))
  pub update : Resource Spec → Eff W (Resource Spec × Option Error)
  pub update_status : Resource Spec → Eff W (Resource Spec × Option Error)
  pub list : Eff W (Result (List (Resource Spec)))

pub record SecretClient (W : Type 0) : Type 0 where
  pub get : NamespacedName → Eff W (Result Secret)
  pub list : String → Eff W (Result (List Secret))
  pub create : Secret → Eff W (Result (Unit {0}))
  pub update : Secret → Eff W (Result (Unit {0}))
  pub delete : Secret → Eff W (Result (Unit {0}))

-- meta.SetStatusCondition and the finalizer helpers of controllerutil; each returns the new list
-- and whether it differs from the old one. ctrl.SetControllerReference makes the first object own
-- the second.
pub record Machinery : Type 0 where
  pub set_status_condition : List Condition → Condition → List Condition × Bool
  pub contains_finalizer : List String → String → Bool
  pub add_finalizer : List String → String → List String × Bool
  pub remove_finalizer : List String → String → List String × Bool
  pub set_controller_reference : ObjectMeta → Secret → Result Secret

-- `%v` of an int64, `%+q` of a []string, and what encoding/json makes of a text: `json.Compact`,
-- and `json.Marshal` of a json.RawMessage.
pub record Formatting : Type 0 where
  pub int64 : ℤ → String
  pub quoted : List String → String
  pub json_compact : String → Result String
  pub json_marshal : String → Result String

-- `rand.Int(rand.Reader, max)` of crypto/rand.
abbrev pub RandInt : Type 0 → Type 0
RandInt W = ℕ → Eff W (Result ℕ)

-- The fields of the five reconcilers.
pub record Reconciler (W : Type 0) : Type 0 where
  pub buckets : ResourceClient W BucketSpec
  pub paths : ResourceClient W PathSpec
  pub policies : ResourceClient W PolicySpec
  pub s3_users : ResourceClient W S3UserSpec
  pub s3_instances : ResourceClient W S3InstanceSpec
  pub secrets : SecretClient W
  pub s3_factory : S3Factory W
  pub machinery : Machinery
  pub formatting : Formatting
  pub rand_int : RandInt W
  pub reconcile_period : ℕ
  pub override_existing_secret : Bool
  pub read_existing_secret : Bool
