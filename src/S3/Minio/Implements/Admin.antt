-- ===== src/S3/Minio/Implements/Admin.antt =====
-- internal/s3/client/impl/minioS3Client.go: quotas, policies and users.
use mathlib.Core.Option
use s3_operator.Prelude.{String, none, some, is_some, contains, ◌≡◌, ◌∙◌, ap, List, ℤ, IsInt64}
use s3_operator.Effect.Post.{OnOk, Post, Either→OnOk, Post-ok, Post-passed, Post-map, Post-weaken}
use s3_operator.S3.Backend.{
  Backend, put, with_quota, with_policy, PolicyWritten, with_user, attach, detach, UserRemoved,
}
use s3_operator.S3.Laws.{Reads, Writes, Changes, info_of}
use s3_operator.S3.Minio.Sdk.{Libraries}
use s3_operator.S3.Minio.Clients.{MinioS3Client}
use s3_operator.S3.Minio.Quota.{uint64_of, int64_of, int64-uint64}
use s3_operator.S3.Minio.Server.{ServerState, backend_of, Lists, Keeps, IsAdministering}
use s3_operator.S3.Minio.UserPolicies.{user_policies_of-Lists}
use s3_operator.S3.Minio.Writes.{put-map, put_same, attach_same, detach_same}
use s3_operator.S3.Minio.Answers.{policy_answer-Tells, user_answer-Tells, unless_code-Either}
use s3_operator.S3.Minio.{
  get_quota, set_quota, get_policy_info, create_or_update_policy, delete_policy, user_exist,
  create_user, delete_user, get_user_policies, add_policies_to_user, remove_policies_from_user,
}

module _ {W P : Type 0} {server : W → ServerState} (canonical : String → String)
    (sdk : Libraries W P) (m : MinioS3Client W)
    (administering : IsAdministering server m.admin_client) where
  abbrev view : W → Backend
  view w = backend_of canonical (server w)

  keeps : {w v : W} → Keeps server w v → view v ≡ view w
  keeps = ap (backend_of canonical)

  set_quota-view :
      (n : String) (q : ℤ) (s : ServerState)
      → IsInt64 q
      → backend_of canonical (record s { quota_of = put n (uint64_of q) s.quota_of })
        ≡ with_quota n q (backend_of canonical s)
  set_quota-view n q s fits =
      ap (λ f. record (backend_of canonical s) { quota_of = f })
        (put-map int64_of n (uint64_of q) s.quota_of
          ∙ ap (λ i. put n i (λ k. int64_of (s.quota_of k))) (int64-uint64 q fits).1)

  pub get_quota_lem :
      (n : String) (w : W) → Post (OnOk (Reads view (λ s. s.quota_of n) w)) (get_quota sdk m n) w
  unfolding get_quota
  get_quota_lem n w =
      Post-passed _ _ w (λ q v (e, kept). (ap int64_of e, keeps kept))
        (administering.get_bucket_quota_lem n w)

  pub set_quota_lem :
      (n : String) (q : ℤ) (w : W)
      → IsInt64 q
      → Post (OnOk (Writes view (with_quota n q) w)) (set_quota sdk m n q) w
  unfolding set_quota
  set_quota_lem n q w fits =
      Post-ok _ w (λ a v e. ap (backend_of canonical) e ∙ set_quota-view n q (server w) fits)
        (administering.set_bucket_quota_lem n _ w)

  pub get_policy_info_lem :
      (n : String) (w : W)
      → Post
          (OnOk (Reads view (λ s. Option.map info_of (s.policy_of n)) w))
          (get_policy_info sdk m n)
          w
  unfolding get_policy_info
  get_policy_info_lem n w =
      Post-map _ _ w (λ x v h. policy_answer-Tells server (λ v. view v ≡ view w) n w v x keeps h)
        (administering.info_canned_policy_lem n w)

  pub create_or_update_policy_lem :
      (n t : String) (w : W)
      → Post (OnOk (Changes view (PolicyWritten n t) w)) (create_or_update_policy sdk m n t) w
  unfolding create_or_update_policy
  create_or_update_policy_lem n t w =
      Post-ok _ w
        (λ a v (q, denotes, e). record {
          stored = q;
          stored_denotes = denotes;
          policy_there = ap (backend_of canonical) e;
        })
        (administering.add_canned_policy_lem n t w)

  pub delete_policy_lem :
      (n : String) (w : W)
      → Post (OnOk (Writes view (with_policy n none) w)) (delete_policy sdk m n) w
  unfolding delete_policy
  delete_policy_lem n w =
      Post-ok _ w (λ a v e. ap (backend_of canonical) e)
        (administering.remove_canned_policy_lem n w)

  pub user_exist_lem :
      (n : String) (w : W)
      → Post (OnOk (Reads view (λ s. is_some (s.secret_key_of n)) w)) (user_exist sdk m n) w
  unfolding user_exist
  user_exist_lem n w =
      Post-map _ _ w
        (λ x v h.
          user_answer-Tells server (λ v. view v ≡ view w)
            (λ u. Lists ((server w).user_has n) u.policy_name) n w v x keeps h)
        (administering.get_user_info_lem n w)

  pub create_user_lem :
      (n t : String) (w : W)
      → Post (OnOk (Writes view (with_user n (some t)) w)) (create_user sdk m n t) w
  unfolding create_user
  create_user_lem n t w =
      Post-passed _ _ w (λ a v e. ap (backend_of canonical) e) (administering.add_user_lem n t w)

  pub delete_user_lem :
      (n : String) (w : W) → Post (OnOk (Changes view (UserRemoved n) w)) (delete_user sdk m n) w
  unfolding delete_user
  delete_user_lem n w =
      Post-map _ _ w
        (λ x v h.
          unless_code-Either _ _ (Changes view (UserRemoved n) w) "XMinioAdminNoSuchUser" x v
            (λ (gone, others, rest). record {
              user_gone = gone;
              others_kept = others;
              rest_same = ap (backend_of canonical) rest;
            })
            (λ (missing, kept). record {
              user_gone = ap (λ s. s.secret_key_of) kept ∙ put_same n _ _ missing;
              others_kept = λ o _. ap (λ s. s.user_has o) kept;
              rest_same =
                  ap
                    (λ s. record (backend_of canonical s) {
                      secret_key_of = (server v).secret_key_of;
                      user_has = (server v).user_has;
                    })
                    kept;
            })
            h)
        (administering.remove_user_lem n w)

  pub get_user_policies_lem :
      (n : String) (w : W)
      → Post
          (OnOk
            (λ ps v. ((p : String) → contains ps p ≡ (view w).user_has n p) × (view v ≡ view w)))
          (get_user_policies sdk m n)
          w
  unfolding get_user_policies
  get_user_policies_lem n w =
      Post-passed _ _ w (λ u v ((_, lists), kept). (user_policies_of-Lists _ _ lists, keeps kept))
        (Post-weaken _ w (Either→OnOk _ _ _) (administering.get_user_info_lem n w))

  pub add_policies_to_user_lem :
      (n : String) (ps : List String) (w : W)
      → Post (OnOk (Writes view (attach n ps) w)) (add_policies_to_user sdk m n ps) w
  unfolding add_policies_to_user
  add_policies_to_user_lem n ps w =
      Post-map _ _ w
        (λ x v h.
          unless_code-Either _ _ (Writes view (attach n ps) w)
            "XMinioAdminPolicyChangeAlreadyApplied" x v (λ e. ap (backend_of canonical) e)
            (λ (there, kept).
              keeps kept
              ∙ ap (λ f. record (view w) { user_has = f })
                  (attach_same n ps (server w).user_has there))
            h)
        (administering.attach_policy_lem n ps w)

  pub remove_policies_from_user_lem :
      (n : String) (ps : List String) (w : W)
      → Post (OnOk (Writes view (detach n ps) w)) (remove_policies_from_user sdk m n ps) w
  unfolding remove_policies_from_user
  remove_policies_from_user_lem n ps w =
      Post-map _ _ w
        (λ x v h.
          unless_code-Either _ _ (Writes view (detach n ps) w)
            "XMinioAdminPolicyChangeAlreadyApplied" x v (λ e. ap (backend_of canonical) e)
            (λ (gone, kept).
              keeps kept
              ∙ ap (λ f. record (view w) { user_has = f })
                  (detach_same n ps (server w).user_has gone))
            h)
        (administering.detach_policy_lem n ps w)
