-- ===== src/Tests/Keys.antt =====
-- The keys of the small cluster, and the secret of a new user.
use mathlib.Core.Path.{fun_ext}
use s3_operator.Prelude.{false, ◌≡◌, refl, sym, ap, none, some, ◌∷◌, Option, Bool-cases, inl, inr}
use s3_operator.Effect.{Result, ok, err, ok_injective, attempt, ◌>>=◌}
use s3_operator.Effect.Post.{OnOk}
use s3_operator.Api.{Secret, NamespacedName}
use s3_operator.Text.{has_prefix, has_suffix, has_infix, trim_prefix, trim_suffix, split, join}
use s3_operator.Helpers.Client.{
  get_s3_client_for_ressource, get_s3_client_from_s3_instance, client_if_allowed, client_if_ready,
  get_s3_instance_access_secret, ca_certificates, value_of,
}
use s3_operator.Helpers.Condition
use s3_operator.Helpers.Condition.{report}
use s3_operator.Helpers.InstanceRef.{get_s3_instance_ref_info}
use s3_operator.Helpers.Namespaces.{is_allowed_namespaces, fits_any, fits}
use s3_operator.Password.{
  generate, generate_with, new_generator, generate_loop, random_element, random_insert, len,
  char_at, insert_at,
}
use s3_operator.User.Secrets.{
  insert, insert_all, unowned_secret, new_secret_for_cr, add_policies_to_user,
}
use s3_operator.User.Create.{
  secret_content, create_user, add_policies, create_with_secret, create_with_existing,
  create_after_get, create_with_key, handle_create, with_client, set_reconciled_condition,
  conflicting_owner,
}
use s3_operator.User.Create.Content.{HasFields}
use s3_operator.User.Create.Keys.{Keys, store, IsKeyed, IsKeeping, Kept}
use s3_operator.User.Create.Stores.{handle_create-Kept}
use s3_operator.S3.{S3Config}
use s3_operator.Tests.World.{World, client, ana, new_world, settled, run_of, is_named}
use s3_operator.Tests.Cluster.{cluster, machinery-IsOwning, find}

abbrev if_found : Result Secret → Option Secret
if_found (ok s) = some s
if_found (err e) = none

abbrev keys : World → Keys
keys w = record {
  secret_at = λ k. if_found (find k w.secrets);
  secret_key_of = w.backend.secret_key_of;
}

found_lem :
    (k : NamespacedName) (w : World) (x : Result Secret)
    → find k w.secrets ≡ x
    → OnOk (λ s v. (keys v).secret_at k ≡ some s) x w
found_lem k w (ok s) e = ap if_found e
found_lem k w (err _) e = tt

stored_lem :
    (s : Secret) (w : World) → keys (record w { secrets = s ∷ w.secrets }) ≡ store s (keys w)
stored_lem s w =
    ap (λ f. record (keys w) { secret_at = f })
      (fun_ext λ k. elim (Bool-cases (is_named k s.meta)) [ inl e ↦ rw e refl | inr e ↦ rw e refl ])

client-IsKeyed : (g : S3Config) → IsKeyed keys (client g)
client-IsKeyed g = record {
  create_user_lem = λ n t w. record { at = refl };
  add_policies_to_user_lem = λ n ps w. record { at = refl };
}

cluster-IsKeeping : IsKeeping keys cluster
cluster-IsKeeping = record {
  get_instance_lem = λ k w. record { at = refl };
  get_secret_lem = λ k w. record { at = refl };
  found_secret_lem = λ k w. record { at = found_lem k w (find k w.secrets) refl };
  create_secret_lem = λ s w. record { at = stored_lem s w };
  update_secret_lem = λ s w. record { at = stored_lem s w };
  generate_leaves_lem = λ p g w. record { at = refl };
  generate_lem = λ p g w. record { at = client-IsKeyed g };
  report_lem = λ o w. record { at = refl };
  rand_int_lem = λ m w. record { at = refl };
}

ana-HasFields : HasFields ana
ana-HasFields = record {
  access_key_free = record {
    no_connection = refl;
    no_url = refl;
    no_certificate = refl;
    no_region = refl;
    no_path_style = refl;
  };
  secret_key_free = record {
    no_connection = refl;
    no_url = refl;
    no_certificate = refl;
    no_region = refl;
    no_path_style = refl;
  };
  apart = refl;
}

handle_create-Kept_example : Kept false ana (keys (handle_create cluster ana new_world).1)
unfolding secret_content insert insert_all unowned_secret new_secret_for_cr create_user add_policies
    create_with_secret create_with_existing create_after_get create_with_key handle_create
    with_client set_reconciled_condition add_policies_to_user conflicting_owner join generate
    generate_with new_generator generate_loop random_element random_insert len char_at insert_at
    get_s3_client_for_ressource get_s3_client_from_s3_instance client_if_allowed client_if_ready
    get_s3_instance_access_secret ca_certificates value_of is_allowed_namespaces fits_any fits
    has_prefix has_suffix has_infix trim_prefix trim_suffix get_s3_instance_ref_info split report
    Condition.set_reconciled_condition attempt ◌>>=◌
handle_create-Kept_example =
    handle_create-Kept cluster-IsKeeping machinery-IsOwning
      (λ m s t h. ap (λ s. s.content) (sym (ok_injective h))) refl ana ana-HasFields new_world _
      settled (run_of (handle_create cluster ana new_world) settled refl) refl
