-- ===== src/Tests/Links.antt =====
-- A user whose secret is there, and a secret of someone else's that has the user's name.
use s3_operator.Prelude.{◌≡◌, refl, some, List, [], ◌∷◌}
use s3_operator.Effect.{ok, returned}
use s3_operator.Api.{S3User, Secret}
use s3_operator.User.Secrets.{
  LinkedSecrets, get_user_linked_secrets, link_secrets, no_secrets, owned_copies,
}
use s3_operator.User.Secrets.Links.{Links, get_user_linked_secrets-Links}
use s3_operator.Tests.World.{World, ana, meta_of, new_world, main_keys}
use s3_operator.Tests.Cluster.{cluster}

abbrev user : S3User
user = record ana { spec = record ana.spec { secret_name = "ana-keys" } }

abbrev kept : Secret
kept = record main_keys {
  meta = record (meta_of "user-ana" "ana-keys") {
    owner_references = record { kind = "S3User"; name = "ana"; uid = "ana-uid" } ∷ [];
  };
}

abbrev stray_secret : Secret
stray_secret = record main_keys { meta = meta_of "user-ana" "ana" }

abbrev secrets : List Secret
secrets = stray_secret ∷ kept ∷ main_keys ∷ []

abbrev crowded : World
crowded = record new_world { secrets = secrets }

get_user_linked_secrets-Links_example :
    (found : LinkedSecrets) × ((get_user_linked_secrets cluster user crowded
        ≡ (returned (ok found), crowded))
      × Links user secrets found)
get_user_linked_secrets-Links_example =
    get_user_linked_secrets-Links cluster user secrets crowded crowded refl

-- The stray secret is linked beside the user's own.
both_linked :
    link_secrets user no_secrets secrets
    ≡ record { owned = kept ∷ []; not_owned_configured = some stray_secret }
unfolding link_secrets owned_copies
both_linked = refl
