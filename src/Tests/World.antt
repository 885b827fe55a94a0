-- ===== src/Tests/World.antt =====
-- A world to try the operator in: one object of each kind, one secret, and a backend that serves
-- every call. It models no code; it stands in for the API server and the S3 server.
use s3_operator.Prelude.{
  String, ◌++◌, Bool, true, false, ◌&&◌, ◌==◌, none, some, List, [], ◌∷◌, ℤ, pos, contains, refl,
  is_some, if◌then◌else◌, ◌≡◌, ap, eq_refl, Bool-cases, not, eq_iff, inl, inr, arith, ◌||◌,
}
use mathlib.Core.Path.{fun_ext}
use mathlib.Core.Option
use mathlib.Core.List as L
use s3_operator.Effect.{Error, Result, ok, err, Eff, Exit, returned, Outcome}
use s3_operator.Api.{
  condition_true, Condition, NamespacedName, ObjectMeta, Quantity, Bucket, PathCr, Policy, S3User,
  S3Instance, Secret, reconciled,
}
use s3_operator.S3.{S3Config, S3Client}
use s3_operator.S3.Backend.{
  Backend, PathAdded, PathRemoved, put, put₂, add_bucket, with_quota, with_policy, with_user,
  StoredPolicy,
}
use s3_operator.Text.{trim_space}
use s3_operator.S3.Laws.{IsLawful}

pub record World : Type 0 where
  pub backend : Backend
  pub held : String → List String
  pub bucket : Bucket
  pub path : PathCr
  pub policy : Policy
  pub s3_user : S3User
  pub s3_instance : S3Instance
  pub secrets : List Secret

-- What the backend shows: the policies of its users are kept as lists.
abbrev pub seen : World → Backend
seen w = record w.backend { user_has = λ n. contains (w.held n) }

abbrev pub not_found : Error
not_found = record { is_not_found = true; code = ""; status_code = 404; text = "not found" }

abbrev pub meta_of : String → String → ObjectMeta
meta_of namespace name = record {
  name = name;
  namespace = namespace;
  uid = name ++ "-uid";
  generation = 1;
  deletion_timestamp = none;
  finalizers = "s3.onyxia.sh/finalizer" ∷ [];
  labels = [];
  annotations = [];
  owner_references = [];
}

abbrev pub is_named : NamespacedName → ObjectMeta → Bool
is_named key m = m.namespace == key.namespace && m.name == key.name

abbrev pub answer_of : {A : Type 0} → Bool → A → Result A
answer_of found a = if found then ok a else err not_found

abbrev pub served : {A : Type 0} → A → Eff World (Result A)
served a w = (returned (ok a), w)

pub or_true : (b : Bool) → (b || true) ≡ true
or_true true = refl
or_true false = refl

-- The policy of a text, without the spaces around it.
abbrev pub compacted : String → StoredPolicy
compacted t = record {
  text = trim_space t;
  denotes = λ u. t == u || trim_space t == u;
  denotes_text = rw (eq_refl (trim_space t)) (or_true (t == trim_space t));
}

pub compacted-denotes : (t : String) → (compacted t).denotes t ≡ true
compacted-denotes t = rw (eq_refl t) refl

abbrev changed : (Backend → Backend) → Eff World (Result (Unit {0}))
changed f w = (returned (ok tt), record w { backend = f w.backend })

-- What is left of a list of policies behind the removal of some.
abbrev pub without : List String → List String → List String
without removed [] = []
without removed (p ∷ ps) =
    let rest = without removed ps in if contains removed p then rest else p ∷ rest

abbrev pub add_path : String → String → Backend → Backend
add_path n p s = record s { has_path = put₂ n p true s.has_path }

abbrev remove_bucket : String → Backend → Backend
remove_bucket n s = record s { has_bucket = put n false s.has_bucket }

abbrev remove_path : String → String → Backend → Backend
remove_path n p s = record s { has_path = put₂ n p false s.has_path }

-- A client of the backend; only what the runs need of users is there.
abbrev pub client : S3Config → S3Client World
client g = record {
  bucket_exists = λ n w. (returned (ok (w.backend.has_bucket n)), w);
  create_bucket = λ n. changed (add_bucket n);
  delete_bucket = λ n. changed (remove_bucket n);
  create_path = λ n p. changed (add_path n p);
  path_exists = λ n p w. (returned (w.backend.has_path n p, none), w);
  delete_path = λ n p. changed (remove_path n p);
  get_quota = λ n w. (returned (ok (w.backend.quota_of n)), w);
  set_quota = λ n q. changed (with_quota n q);
  policy_exist = λ n w. (returned (ok (is_some (w.backend.policy_of n))), w);
  delete_policy = λ n. changed (with_policy n none);
  get_policy_info = λ n w.
      (returned (ok (Option.map (λ q. record { policy = q.text }) (w.backend.policy_of n))), w);
  create_or_update_policy = λ n t. changed (with_policy n (some (compacted t)));
  user_exist = λ n w. (returned (ok (is_some (w.backend.secret_key_of n))), w);
  check_user_credentials_valid = λ n a s. served true;
  add_service_account_for_user = λ n a s. served tt;
  create_user = λ n k. changed (with_user n (some k));
  delete_user = λ n. changed (with_user n none);
  get_user_policies = λ n w. (returned (ok (w.held n)), w);
  add_policies_to_user =
      λ n ps w. (returned (ok tt), record w { held = put n (L.◌++◌ (w.held n) ps) w.held });
  remove_policies_from_user =
      λ n ps w. (returned (ok tt), record w { held = put n (without ps (w.held n)) w.held });
  get_config = g;
  list_buckets = served [];
}

contains-append :
    (xs ys : List String) (p : String)
    → contains (L.◌++◌ xs ys) p ≡ (contains xs p || contains ys p)
contains-append [] ys p = refl
contains-append (x ∷ xs) ys p = rw (contains-append xs ys p) (ground arith)

contains-without :
    (removed ps : List String) (p : String)
    → contains (without removed ps) p ≡ (contains ps p && not (contains removed p))
contains-without removed [] p = refl
contains-without removed (q ∷ ps) p = elim (Bool-cases (q == p)) [
  | inl e ↦ rw ((eq_iff q p).0 e) (ground (arith, contains-without removed ps p, eq_iff p p))
  | inr e ↦ ground (arith, contains-without removed ps p, e)
]

put_held :
    (f : String → List String) (g : String → Bool) (xs : List String) (n m p : String)
    → contains xs p ≡ g p
    → contains (put n xs f m) p ≡ put n g (λ k. contains (f k)) m p
put_held f g xs n m p h = elim (Bool-cases (n == m)) [ inl e ↦ rw e h | inr e ↦ rw e refl ]

with_held :
    (s : Backend) (f g : String → String → Bool)
    → ((n p : String) → f n p ≡ g n p)
    → record s { user_has = f } ≡ record s { user_has = g }
with_held s f g h = ap (λ f. record s { user_has = f }) (fun_ext λ n. fun_ext λ p. h n p)

PathAdded-add_path :
    (b p : String) (s : Backend) (f : String → String → Bool)
    → PathAdded b p (record s { user_has = f }) (record (add_path b p s) { user_has = f })
PathAdded-add_path b p s f = record {
  path_there = rw (eq_refl b, eq_refl p);
  paths_kept = λ q h. ground arith;
  rest_same = refl;
}

PathRemoved-remove_path :
    (b p : String) (s : Backend) (f : String → String → Bool)
    → PathRemoved b p (record s { user_has = f }) (record (remove_path b p s) { user_has = f })
PathRemoved-remove_path b p s f = record {
  path_gone = rw (eq_refl b, eq_refl p);
  none_added = λ q h. ground arith;
  rest_same = refl;
}

pub client-IsLawful : (g : S3Config) → IsLawful seen (client g)
client-IsLawful g = record {
  bucket_exists_lem = λ n w. record { at = (refl, refl) };
  create_bucket_lem = λ n w. record { at = refl };
  delete_bucket_lem = λ n w. record {
    at = record {
      bucket_gone = refl;
      quotas_kept = λ m e. refl;
      paths_kept = λ m e. refl;
      rest_same = refl;
    };
  };
  create_path_lem = λ n p w. record { at = PathAdded-add_path n p w.backend _ };
  path_exists_lem = λ n p w. record { at = λ _. (refl, refl) };
  delete_path_lem = λ n p w. record { at = PathRemoved-remove_path n p w.backend _ };
  get_quota_lem = λ n w. record { at = (refl, refl) };
  set_quota_lem = λ n q w _. record { at = refl };
  get_policy_info_lem = λ n w. record { at = (refl, refl) };
  create_or_update_policy_lem = λ n t w. record {
    at = record { stored = compacted t; stored_denotes = compacted-denotes t; policy_there = refl };
  };
  delete_policy_lem = λ n w. record { at = refl };
  user_exist_lem = λ n w. record { at = (refl, refl) };
  check_user_credentials_valid_lem = λ n a t w. record { at = refl };
  create_user_lem = λ n t w. record { at = refl };
  delete_user_lem = λ n w. record {
    at = record { user_gone = refl; others_kept = λ m e. refl; rest_same = refl };
  };
  get_user_policies_lem = λ n w. record { at = ((λ p. refl), refl) };
  add_policies_to_user_lem = λ n ps w. record {
    at = with_held w.backend _ _ λ m p. put_held w.held _ _ n m p (contains-append (w.held n) ps p);
  };
  remove_policies_from_user_lem = λ n ps w. record {
    at =
        with_held w.backend _ _ λ m p. put_held w.held _ _ n m p (contains-without ps (w.held n) p);
  };
}

abbrev gigabytes : ℤ → Quantity
gigabytes n = record { as_int64 = (n, true); text = "a few" }

abbrev pub data_bucket : Bucket
data_bucket = record {
  meta = meta_of "user-ana" "data";
  spec = record {
    name = "data";
    paths = "raw" ∷ "clean" ∷ [];
    s3_instance_ref = "storage/main";
    quota = record { default = gigabytes (pos 10); override = gigabytes (pos 20) };
  };
  conditions = [];
}

abbrev pub data_path : PathCr
data_path = record {
  meta = meta_of "user-ana" "results";
  spec = record { bucket_name = "data"; paths = "results" ∷ []; s3_instance_ref = "storage/main" };
  conditions = [];
}

abbrev pub data_policy : Policy
data_policy = record {
  meta = meta_of "user-ana" "readers";
  spec = record { name = "readers"; policy_content = "{}"; s3_instance_ref = "storage/main" };
  conditions = [];
}

abbrev pub ana : S3User
ana = record {
  meta = meta_of "user-ana" "ana";
  spec = record {
    access_key = "ana";
    policies = some ("readers" ∷ "writers" ∷ []);
    secret_name = "";
    s3_instance_ref = "storage/main";
    secret_field_name_access_key = "accessKey";
    secret_field_name_secret_key = "secretKey";
  };
  conditions = [];
}

abbrev pub instance_with : List Condition → S3Instance
instance_with conditions = record {
  meta = meta_of "storage" "main";
  spec = record {
    s3_provider = "minio";
    url = "https://minio.example.com";
    secret_ref = "main-keys";
    region = "us-east-1";
    ca_cert_secret_ref = "";
    allowed_namespaces = "user-*" ∷ [];
    bucket_deletion_enabled = true;
    policy_deletion_enabled = true;
    path_deletion_enabled = true;
    s3_user_deletion_enabled = true;
  };
  conditions = conditions;
}

abbrev pub ready : Condition
ready = record {
  type = reconciled;
  status = condition_true;
  observed_generation = 1;
  last_transition_time = none;
  reason = reconciled;
  message = "S3Instance instance reconciled";
}

abbrev pub main_keys : Secret
main_keys = record {
  meta = meta_of "storage" "main-keys";
  content = ("S3_ACCESS_KEY", "admin") ∷ ("S3_SECRET_KEY", "admin-key") ∷ [];
  type = "Opaque";
}

abbrev pub empty_backend : Backend
empty_backend = record {
  has_bucket = λ n. false;
  quota_of = λ n. pos 0;
  has_path = λ n p. false;
  policy_of = λ n. none;
  secret_key_of = λ n. none;
  user_has = λ n p. false;
}

abbrev pub world_with : Backend → S3Instance → World
world_with backend s3_instance = record {
  backend = backend;
  held = λ n. "old" ∷ "readers" ∷ [];
  bucket = data_bucket;
  path = data_path;
  policy = data_policy;
  s3_user = ana;
  s3_instance = s3_instance;
  secrets = main_keys ∷ [];
}

abbrev pub new_world : World
new_world = world_with empty_backend (instance_with (ready ∷ []))

-- How a reconciliation ends that has nothing left to do.
abbrev pub settled : Outcome
settled = record { requeue = false; requeue_after = 60; error = none }

pub run_of : {W A : Type 0} (x : Exit A × W) (a : A) → x.0 ≡ returned a → x ≡ (returned a, x.1)
run_of x a e = ap (λ y. (y, x.1)) e
