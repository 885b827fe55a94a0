-- ===== src/Helpers/InstanceRef/RoundTrip.antt =====
-- The text of an instance's info, read as a reference, is that info again.
use s3_operator.Prelude.{String, ◌≡◌, refl}
use s3_operator.Text.Laws.{has_infix-append}
use s3_operator.Text.Split.{Lacks, split-Lacks, split-append, Lacks-has_infix}
use s3_operator.Helpers.InstanceRef.{S3InstanceInfo, get_s3_instance_ref_info, info_string}

-- The info of an instance whose name and namespace have no slash, written as a reference by
-- `S3InstanceInfo.String` and read by `GetS3InstanceRefInfo` in any namespace, is the same info.
pub ref_info-info_string :
    (info : S3InstanceInfo) (ns : String)
    → Lacks info.namespace b'/'
    → Lacks info.name b'/'
    → get_s3_instance_ref_info (info_string info) ns ≡ info
unfolding get_s3_instance_ref_info
ref_info-info_string info ns hns hname =
    rw
      (
        has_infix-append info.namespace "/" info.name,
        split-append info.namespace info.name hns,
        split-Lacks info.name b'/' hname,
      )
      refl

-- A reference without a slash names an instance in the namespace of the resource.
pub ref_info_local :
    (name ns : String)
    → Lacks name b'/'
    → get_s3_instance_ref_info name ns ≡ record { name = name; namespace = ns }
unfolding get_s3_instance_ref_info
ref_info_local name ns h = rw (Lacks-has_infix name h) refl
