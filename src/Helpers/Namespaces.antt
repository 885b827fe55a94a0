-- ===== src/Helpers/Namespaces.antt =====
-- internal/helpers/s3instance.go, IsAllowedNamespaces: which namespaces may use an S3 instance.
pub mod Globs
use s3_operator.Prelude.{
  String, Bool, true, false, ◌&&◌, ◌==◌, List, [], ◌∷◌, is_empty, if◌then◌else◌,
}
use s3_operator.Text.{has_prefix, has_suffix, has_infix, trim_prefix, trim_suffix}
use s3_operator.Api.{S3Instance}

-- One round of the loop: `namespace` fits `allowed_namespace`, in which a star stands for any text
-- at the beginning, at the end, or at both.
unfoldable pub fits : String → String → Bool
fits namespace allowed_namespace =
    if has_prefix allowed_namespace "*"
      && (has_suffix allowed_namespace "*"
          && has_infix namespace (trim_suffix (trim_prefix allowed_namespace "*") "*"))
    then true
    else if has_prefix allowed_namespace "*"
        && has_suffix namespace (trim_prefix allowed_namespace "*")
    then true
    else if has_suffix allowed_namespace "*"
        && has_prefix namespace (trim_suffix allowed_namespace "*")
    then true
    else namespace == allowed_namespace

-- The loop over `Spec.AllowedNamespaces`.
unfoldable pub fits_any : String → List String → Bool
fits_any namespace [] = false
fits_any namespace (allowed_namespace ∷ rest) =
    if fits namespace allowed_namespace then true else fits_any namespace rest

-- `IsAllowedNamespaces`
unfoldable pub is_allowed_namespaces : String → S3Instance → Bool
is_allowed_namespaces namespace s3_instance =
    if is_empty s3_instance.spec.allowed_namespaces
    then namespace == s3_instance.namespace
    else fits_any namespace s3_instance.spec.allowed_namespaces
