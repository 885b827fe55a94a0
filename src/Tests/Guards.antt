-- ===== src/Tests/Guards.antt =====
-- A cluster that keeps Bucket objects, beside a backend of buckets, and two requests in it.
use s3_operator.Prelude.{
  true, false, ◌≡◌, ◌==◌, refl, none, some, [], ◌∷◌, Option, inl, inr, ap, eq_refl, if◌then◌else◌,
}
use s3_operator.Effect.{Result, ok, err, Eff, returned, pure}
use s3_operator.Effect.Post.{OnOk}
use s3_operator.Api.{Resource, Bucket, NamespacedName, BucketSpec}
use s3_operator.S3.{S3Config, S3Client}
use s3_operator.S3.Mocked.{mocked_s3_client}
use s3_operator.Cluster.{ResourceClient, Reconciler}
use s3_operator.Bucket.Guard.{
  Stored, Site, stored_of, key_of, same_key, write_object, write_bucket, Guarded, IsOrderly,
  IsGuarding,
}
use s3_operator.Bucket.Guard.Serves.{serve, serve-Guarded}
use s3_operator.Tests.World.{not_found, meta_of, data_bucket, instance_with, ready, main_keys}
use s3_operator.Tests.Cluster.{machinery, formatting}

abbrev answer : {A : Type 0} → A → Eff Site (Result A)
answer a = pure (ok a)

-- A kind of which there is one object, or none; writes change nothing.
abbrev one : {Spec : Type 0} → Result (Resource Spec) → ResourceClient Site Spec
one o = record {
  get = λ k. pure o;
  update = λ o. pure (o, none);
  update_status = λ o. pure (o, none);
  list = answer [];
}

abbrev bucket_at : NamespacedName → Stored → Bucket
bucket_at k o = record {
  meta = record (meta_of k.namespace k.name) { finalizers = o.finalizers };
  spec = o.spec;
  conditions = [];
}

abbrev answer_at : NamespacedName → Option Stored → Result Bucket
answer_at k none = err not_found
answer_at k (some o) = ok (bucket_at k o)

abbrev stored_buckets : ResourceClient Site BucketSpec
stored_buckets = record {
  get = λ k s. (returned (answer_at k (s.objects k)), s);
  update = λ b s. (returned (b, none), write_object (key_of b) (some (stored_of b)) s);
  update_status = λ b. pure (b, none);
  list = answer [];
}

abbrev site_client : S3Config → S3Client Site
site_client g = record (mocked_s3_client (record { s3_config = g })) {
  bucket_exists = λ n s. (returned (ok (s.buckets n)), s);
  create_bucket = λ n s. (returned (ok tt), write_bucket n true s);
  delete_bucket = λ n s. (returned (ok tt), write_bucket n false s);
  get_config = g;
}

abbrev keeper : Reconciler Site
keeper = record {
  buckets = stored_buckets;
  paths = one (err not_found);
  policies = one (err not_found);
  s3_users = one (err not_found);
  s3_instances = one (ok (instance_with (ready ∷ [])));
  secrets = record {
    get = λ k. answer main_keys;
    list = λ n. answer [];
    create = λ s. answer tt;
    update = λ s. answer tt;
    delete = λ s. answer tt;
  };
  s3_factory = record { generate_s3_client = λ p g. answer (site_client g) };
  machinery = machinery;
  formatting = formatting;
  rand_int = λ m. answer 0;
  reconcile_period = 60;
  override_existing_secret = false;
  read_existing_secret = false;
}

site_client-IsOrderly :
    (g : S3Config) → g.bucket_deletion_enabled ≡ true → IsOrderly (λ s. s) (site_client g)
unfolding mocked_s3_client
site_client-IsOrderly g on = record {
  bucket_exists_lem = λ n s. refl;
  create_bucket_lem = λ n s. inr refl;
  delete_bucket_lem = λ n s. inr refl;
  deleted_bucket_lem = λ n s. record { at = rw (eq_refl n) refl };
  get_quota_lem = λ n s. refl;
  set_quota_lem = λ n q s. refl;
  create_path_lem = λ n p s. refl;
  path_exists_lem = λ n p s. refl;
  deletion_enabled = on;
}

got_lem :
    (k : NamespacedName) (s : Site) (o : Option Stored)
    → s.objects k ≡ o
    → OnOk (λ b v. (key_of b ≡ k) × (v.objects k ≡ some (stored_of b))) (answer_at k o) s
got_lem k s none e = tt
got_lem k s (some o) e = (refl, e)

same_key_refl : (k : NamespacedName) → same_key k k ≡ true
same_key_refl k = rw (eq_refl k.namespace, eq_refl k.name) refl

keeper-IsGuarding : IsGuarding (λ s. s) (λ i. i ≡ instance_with (ready ∷ [])) keeper
keeper-IsGuarding = record {
  get_instance_lem = λ k s. refl;
  get_secret_lem = λ k s. refl;
  generate_lem = λ p g s. refl;
  served_lem = λ k s. record { at = refl };
  orderly_lem = λ i secret certificates s e. record {
    at = site_client-IsOrderly _ (ap (λ i. i.spec.bucket_deletion_enabled) e);
  };
  get_lem = λ k s. refl;
  got_lem = λ k s. record { at = got_lem k s (s.objects k) refl };
  update_status_lem = λ b s. refl;
  update_lem = λ b s. inr (inl refl);
  updated_lem = λ b s. record { at = λ _. inl (rw (same_key_refl (key_of b)) refl) };
  added_lem = λ fs f. rw (eq_refl f) refl;
  none_lem = λ f. refl;
}

-- An object without a finalizer, and a backend with a bucket of someone else's.
abbrev new_site : Site
new_site = record {
  objects = λ k.
      if same_key (key_of data_bucket) k
      then some (record { spec = data_bucket.spec; finalizers = [] })
      else none;
  buckets = λ n. n == "logs";
}

abbrev data_key : NamespacedName
data_key = key_of data_bucket

serve-Guarded_example :
    Guarded machinery new_site.buckets
      (serve keeper (data_key ∷ record { namespace = "user-ana"; name = "lost" } ∷ []) new_site)
serve-Guarded_example =
    serve-Guarded keeper-IsGuarding
      (data_key ∷ record { namespace = "user-ana"; name = "lost" } ∷ []) new_site
