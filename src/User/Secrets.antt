-- ===== src/User/Secrets.antt =====
-- internal/controller/user/utils.go: the secrets of a user, and its policies on the backend.
use mathlib.Core.List as L
pub mod Links
pub mod Reads
use s3_operator.Prelude.{
  String, not, ◌&&◌, ◌==◌, Option, none, some, is_some, List, [], ◌∷◌, is_empty, if◌then◌else◌,
}
use s3_operator.Effect.{errorf, Result, ok, err, Eff, pure, attempt}
use s3_operator.Api.{OwnerReference, S3User, Secret}
use s3_operator.Cluster.{Reconciler}
use s3_operator.Helpers.Client.{get_s3_client_for_ressource}

-- A nil slice has no elements.
abbrev pub elements : Option (List String) → List String
elements none = []
elements (some policies) = policies

abbrev pub policies_of : S3User → List String
policies_of user = elements user.spec.policies

-- `cmp.Or(userResource.Spec.SecretName, userResource.Name)`
abbrev pub secret_name_of : S3User → String
secret_name_of user = if user.spec.secret_name == "" then user.name else user.spec.secret_name

-- The secret, once for each owner reference that has the user's UID.
unfoldable pub owned_copies : String → Secret → List OwnerReference → List Secret
owned_copies uid secret [] = []
owned_copies uid secret (ref ∷ refs) =
    let rest = owned_copies uid secret refs in if ref.uid == uid then secret ∷ rest else rest

-- What the loop has found: the secrets that the user owns, and one that it does not own but that
-- has the configured or the default name.
pub record LinkedSecrets : Type 0 where
  pub owned : List Secret
  pub not_owned_configured : Option Secret

-- A round of the loop for a secret that is not linked.
abbrev pub named : S3User → Secret → Option Secret → Option Secret
named user secret found =
    if secret.name == user.spec.secret_name
    then some secret
    else if secret.name == user.name && not (is_some found)
    then some secret
    else found

-- A round of the loop.
abbrev pub link_secret : S3User → LinkedSecrets → Secret → LinkedSecrets
link_secret user found secret =
    let copies = owned_copies user.uid secret secret.owner_references in
    record {
      owned = L.◌++◌ found.owned copies;
      not_owned_configured =
          if is_empty copies
          then named user secret found.not_owned_configured
          else found.not_owned_configured;
    }

unfoldable pub link_secrets : S3User → LinkedSecrets → List Secret → LinkedSecrets
unfolding owned_copies
link_secrets user found [] = found
link_secrets user found (secret ∷ secrets) =
    link_secrets user (link_secret user found secret) secrets

abbrev pub no_secrets : LinkedSecrets
no_secrets = record { owned = []; not_owned_configured = none }

-- A write to a Go map.
unfoldable pub insert : String → String → List (String × String) → List (String × String)
insert k v [] = (k, v) ∷ []
insert k v ((j, w) ∷ m) = if j == k then (k, v) ∷ m else (j, w) ∷ insert k v m

-- `for k, v := range source { target[k] = v }`
unfoldable pub insert_all : List (String × String) → List (String × String) → List (String × String)
unfolding insert
insert_all target [] = target
insert_all target ((k, v) ∷ source) = insert_all (insert k v target) source

-- The secret before it gets its owner.
unfoldable pub unowned_secret : S3User → List (String × String) → Secret
unfolding insert_all
unowned_secret user content = record {
  meta = record {
    name = secret_name_of user;
    namespace = user.namespace;
    uid = "";
    generation = 0;
    deletion_timestamp = none;
    finalizers = [];
    labels = insert_all (("app.kubernetes.io/created-by", "s3-operator") ∷ []) user.labels;
    annotations = insert_all [] user.annotations;
    owner_references = [];
  };
  content = content;
  type = "Opaque";
}

module _ {W : Type 0} (r : Reconciler W) where
  -- `addPoliciesToUser`
  unfoldable pub add_policies_to_user : S3User → Eff W (Result (Unit {0}))
  add_policies_to_user user =
      attempt (get_s3_client_for_ressource r user.namespace user.spec.s3_instance_ref)
        (λ e. pure (err e))
        λ c. elim user.spec.policies [
          | none ↦ pure (ok tt)
          | some policies ↦ c.add_policies_to_user user.spec.access_key policies
        ]

  -- `getUserLinkedSecrets`
  unfoldable pub get_user_linked_secrets : S3User → Eff W (Result LinkedSecrets)
  get_user_linked_secrets user =
      attempt (r.secrets.list user.namespace) (λ e. pure (err (errorf "SecretListingFailed")))
        λ secrets. pure (ok (link_secrets user no_secrets secrets))

  -- `deleteSecret`
  unfoldable pub delete_secret : Secret → Eff W (Result (Unit {0}))
  delete_secret secret = r.secrets.delete secret

  -- `newSecretForCR`
  unfoldable pub new_secret_for_cr : S3User → List (String × String) → Result Secret
  new_secret_for_cr user content =
      r.machinery.set_controller_reference user.meta (unowned_secret user content)
