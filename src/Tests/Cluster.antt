-- ===== src/Tests/Cluster.antt =====
-- The API server of the tests, and the libraries that the operator calls, as simple functions.
use mathlib.Core.Bool.{false≢true}
use s3_operator.Prelude.{
  true, false, none, List, [], ◌∷◌, contains, refl, if◌then◌else◌, ap, sym, Bool, ◌=ℤ◌, pos, not,
}
use s3_operator.Effect.{Result, ok, err, returned, ok_injective}
use s3_operator.Effect.Post.{OnOk}
use s3_operator.Api.{NamespacedName, Resource, Secret}
use s3_operator.S3.{S3Config}
use s3_operator.S3.Backend.{put}
use s3_operator.Bucket.Target.{IsTarget}
use s3_operator.Helpers.Client.{config_of}
use s3_operator.Cluster.{ResourceClient, SecretClient, Machinery, Formatting, Reconciler}
use s3_operator.Cluster.Laws.{IsConnected, IsReporting, IsStoring, IsOwning, secret_key}
use s3_operator.Tests.World.{
  World, seen, is_named, answer_of, served, not_found, client, client-IsLawful, data_bucket,
  instance_with, ready, main_keys,
}

-- meta.SetStatusCondition, of which the runs need that the condition is written.
abbrev pub machinery : Machinery
machinery = record {
  set_status_condition = λ cs c. (c ∷ [], true);
  contains_finalizer = λ fs f. contains fs f;
  add_finalizer = λ fs f. (f ∷ fs, true);
  remove_finalizer = λ fs f. ([], true);
  set_controller_reference = λ m s. ok s;
}

abbrev pub formatting : Formatting
formatting = record {
  int64 = λ n. "n";
  quoted = λ ss. "[]";
  json_compact = λ s. ok s;
  json_marshal = λ s. ok s;
}

abbrev resources :
    {Spec : Type 0}
    → (World → Resource Spec)
    → (Resource Spec → World → World)
    → ResourceClient World Spec
resources get put = record {
  get = λ k w. (returned (answer_of (is_named k (get w).meta) (get w)), w);
  update = λ o w. (returned (o, none), put o w);
  update_status = λ o w. (returned (o, none), put o w);
  list = λ w. (returned (ok (get w ∷ [])), w);
}

abbrev pub find : NamespacedName → List Secret → Result Secret
find k [] = err not_found
find k (s ∷ secrets) = if is_named k s.meta then ok s else find k secrets

abbrev secret_client : SecretClient World
secret_client = record {
  get = λ k w. (returned (find k w.secrets), w);
  list = λ n w. (returned (ok w.secrets), w);
  create = λ s w. (returned (ok tt), record w { secrets = s ∷ w.secrets });
  update = λ s w. (returned (ok tt), record w { secrets = s ∷ w.secrets });
  delete = λ s. served tt;
}

abbrev pub cluster : Reconciler World
cluster = record {
  buckets = resources (λ w. w.bucket) (λ o w. record w { bucket = o });
  paths = resources (λ w. w.path) (λ o w. record w { path = o });
  policies = resources (λ w. w.policy) (λ o w. record w { policy = o });
  s3_users = resources (λ w. w.s3_user) (λ o w. record w { s3_user = o });
  s3_instances = resources (λ w. w.s3_instance) (λ o w. record w { s3_instance = o });
  secrets = secret_client;
  s3_factory = record { generate_s3_client = λ p g. served (client g) };
  machinery = machinery;
  formatting = formatting;
  rand_int = λ m. served 0;
  reconcile_period = 60;
  override_existing_secret = false;
  read_existing_secret = false;
}

pub answer_on_ok :
    {A : Type 0} {P : A → Type 0} (w : World) (found : Bool) (a : A)
    → ((a : A) → P a)
    → OnOk (λ a _. P a) (answer_of found a) w
answer_on_ok w true a h = h a
answer_on_ok w false a h = tt

pub cluster-IsConnected : IsConnected seen cluster
cluster-IsConnected = record {
  get_instance_lem = λ k w. record { at = refl };
  get_secret_lem = λ k w. record { at = refl };
  serves = λ p url. true;
  instance_serves_lem = λ k w. record { at = answer_on_ok w _ _ (λ i. refl) };
  generate_lem = λ p g w _. record { at = (client-IsLawful g, refl) };
  generate_leaves_lem = λ p g w. record { at = refl };
}

pub buckets-IsReporting : IsReporting seen cluster.buckets
buckets-IsReporting = record { update_status_lem = λ o w. record { at = refl } }

pub paths-IsReporting : IsReporting seen cluster.paths
paths-IsReporting = record { update_status_lem = λ o w. record { at = refl } }

pub s3_users-IsReporting : IsReporting seen cluster.s3_users
s3_users-IsReporting = record { update_status_lem = λ o w. record { at = refl } }

pub secrets-IsStoring : IsStoring seen cluster.secrets
secrets-IsStoring = record {
  list_lem = λ n w. record { at = refl };
  create_lem = λ s w. record { at = refl };
  update_lem = λ s w. record { at = refl };
  delete_lem = λ s w. record { at = refl };
}

pub machinery-IsOwning : IsOwning cluster.machinery
machinery-IsOwning = record {
  set_controller_reference_lem = λ m s t h. ap secret_key (sym (ok_injective h));
}

pub policies-IsReporting : IsReporting seen cluster.policies
policies-IsReporting = record { update_status_lem = λ o w. record { at = refl } }

-- The configuration of the client of the instance.
abbrev pub main_config : S3Config
main_config = config_of (instance_with (ready ∷ [])) main_keys []

-- The override of 20, which is not zero, is asked for.
pub data_bucket-IsTarget : IsTarget data_bucket.spec.quota (pos 20)
data_bucket-IsTarget = record {
  override_converts = refl;
  override_first = λ _. refl;
  default_else = λ z. absurd (false≢true (sym (ap (λ q. not (q =ℤ pos 0)) z)));
}
