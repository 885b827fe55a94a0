-- ===== src/Helpers/InstanceRef.antt =====
-- internal/helpers/s3instance.go: a reference to an S3 instance is `name`, in the namespace of the
-- resource that refers to it, or `namespace/name`.
pub mod RoundTrip
use s3_operator.Prelude.{String, ◌++◌, Bool, ◌&&◌, ◌==◌, List, [], ◌∷◌, if◌then◌else◌}
use s3_operator.Text.{has_infix, split}

pub record S3InstanceInfo : Type 0 where
  pub name : String
  pub namespace : String

-- `result[i]` at i = 0 and 1 of what `strings.Split` returned. A text with a separator splits into
-- two parts at least, so that the other cases, where Go panics, do not arise.
abbrev pub info_of_parts : List String → S3InstanceInfo
info_of_parts (namespace ∷ name ∷ _) = record { name = name; namespace = namespace }
info_of_parts (namespace ∷ []) = record { name = ""; namespace = namespace }
info_of_parts [] = record { name = ""; namespace = "" }

-- `GetS3InstanceRefInfo`
unfoldable pub get_s3_instance_ref_info : String → String → S3InstanceInfo
get_s3_instance_ref_info ressource_s3_instance_ref ressource_namespace =
    if has_infix ressource_s3_instance_ref "/"
    then info_of_parts (split ressource_s3_instance_ref b'/')
    else record { name = ressource_s3_instance_ref; namespace = ressource_namespace }

-- `S3InstanceInfo.String`
abbrev pub info_string : S3InstanceInfo → String
info_string info = info.namespace ++ ("/" ++ info.name)

-- `S3InstanceInfo.Equal`
abbrev pub info_equal : S3InstanceInfo → String → String → Bool
info_equal info name namespace = info.name == name && info.namespace == namespace
