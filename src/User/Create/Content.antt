-- ===== src/User/Create/Content.antt =====
-- What the content of a new secret has at the two fields that the user's spec names.
use s3_operator.Prelude.{
  String, ◌==◌, ◌≡◌, false, Option, none, some, List, [], ◌∷◌, if◌then◌else◌, refl, eq_iff, eq_refl,
  arith, Bool-cases, inl, inr,
}
use s3_operator.Api.{S3User}
use s3_operator.S3.{S3Config}
use s3_operator.User.Secrets.{insert}
use s3_operator.User.Create.{secret_content, read_secret_key}

-- A read of a Go map, whose keys are distinct.
abbrev pub value_at : String → List (String × String) → Option String
value_at k [] = none
value_at k ((j, v) ∷ m) = if j == k then some v else value_at k m

value_at-insert :
    (k j v : String) (m : List (String × String))
    → value_at j (insert k v m) ≡ (if k == j then some v else value_at j m)
unfolding insert
value_at-insert k j v [] = refl
value_at-insert k j v ((i, w) ∷ m) =
    ground (arith, eq_iff k j, eq_iff i k, eq_iff i j, value_at-insert k j v m)

-- A field that the operator does not fill with something else.
pub record IsFree (field : String) : Type 0 where
  pub no_connection : ("s3ConnectionURL" == field) ≡ false
  pub no_url : ("s3url" == field) ≡ false
  pub no_certificate : ("s3CACertificate" == field) ≡ false
  pub no_region : ("s3region" == field) ≡ false
  pub no_path_style : ("s3PathStyleUrl" == field) ≡ false

-- The two fields of a spec are free, and not the same.
pub record HasFields (user : S3User) : Type 0 where
  pub access_key_free : IsFree user.spec.secret_field_name_access_key
  pub secret_key_free : IsFree user.spec.secret_field_name_secret_key
  pub apart :
      (user.spec.secret_field_name_secret_key == user.spec.secret_field_name_access_key) ≡ false

module _ (user : S3User) (fields : HasFields user) (g : S3Config) (key : String) where
  pub content_secret_key :
      value_at user.spec.secret_field_name_secret_key (secret_content user g key) ≡ some key
  unfolding secret_content
  content_secret_key =
      let f = fields.secret_key_free in
      simp (
        value_at-insert, f.no_connection, f.no_url, f.no_certificate, f.no_region, f.no_path_style,
        eq_refl,
      )

  pub content_access_key :
      value_at user.spec.secret_field_name_access_key (secret_content user g key)
      ≡ some user.spec.access_key
  unfolding secret_content
  content_access_key =
      let f = fields.access_key_free in
      simp (
        value_at-insert, f.no_connection, f.no_url, f.no_certificate, f.no_region, f.no_path_style,
        fields.apart, eq_refl,
      )

-- The loop over the existing secret reads the field, and keeps the drawn key if there is none.
pub read_secret_key-value_at :
    (field key : String) (m : List (String × String))
    → read_secret_key field key m ≡ (elim (value_at field m) [ none ↦ key | some v ↦ v ])
unfolding read_secret_key
read_secret_key-value_at field key [] = refl
read_secret_key-value_at field key ((k, v) ∷ m) = elim (Bool-cases (k == field)) [
  | inl e ↦ rw e refl
  | inr e ↦ rw e (read_secret_key-value_at field key m)
]
