-- ===== src/S3/Minio/Implements/Objects.antt =====
-- internal/s3/client/impl/minioS3Client.go: buckets, paths, and the check of credentials.
use s3_operator.Prelude.{String, ◌++◌, none, ◌≡◌, sym, ◌∙◌, ap, subst}
use s3_operator.Effect.Post.{OnOk, Post, Post-ok, Post-passed, Post-map, Post-attempt, pure-Finds}
use s3_operator.S3.Backend.{Backend, add_bucket, BucketRemoved, PathAdded, PathRemoved}
use s3_operator.S3.Laws.{Reads, Writes, Changes}
use s3_operator.S3.Minio.Sdk.{Libraries}
use s3_operator.S3.Minio.Clients.{MinioS3Client, generate_minio_client}
use s3_operator.S3.Minio.Quota.{int64_of}
use s3_operator.S3.Minio.Server.{ServerState, backend_of, Keeps, IsServing, IsSdk}
use s3_operator.S3.Minio.Writes.{PathAdded-put, PathRemoved-put}
use s3_operator.S3.Minio.Answers.{stat_answer-Tells, credentials_answer-keeps}
use s3_operator.S3.Minio.{
  bucket_exists, create_bucket, delete_bucket, create_path, path_exists, delete_path,
  check_user_credentials_valid,
}

module _ {W P : Type 0} {server : W → ServerState} {canonical : String → String}
    (sdk : Libraries W P) (m : MinioS3Client W)
    (libraries : IsSdk server canonical m.s3_config.endpoint sdk)
    (serving : IsServing server canonical m.client) where
  abbrev view : W → Backend
  view w = backend_of canonical (server w)

  keeps : {w v : W} → Keeps server w v → view v ≡ view w
  keeps = ap (backend_of canonical)

  -- What MinIO makes of a key with a slash in front of it.
  key_lem : (p : String) → canonical ("/" ++ (p ++ "/.keep")) ≡ canonical (p ++ "/.keep")
  key_lem p = libraries.canonical_lem (p ++ "/.keep")

  pub bucket_exists_lem :
      (n : String) (w : W)
      → Post (OnOk (Reads view (λ s. s.has_bucket n) w)) (bucket_exists sdk m n) w
  unfolding bucket_exists
  bucket_exists_lem n w =
      Post-ok _ w (λ a v (e, kept). (e, keeps kept)) (serving.bucket_exists_lem n w)

  pub create_bucket_lem :
      (n : String) (w : W) → Post (OnOk (Writes view (add_bucket n) w)) (create_bucket sdk m n) w
  unfolding create_bucket
  create_bucket_lem n w =
      Post-ok _ w (λ a v e. ap (backend_of canonical) e) (serving.make_bucket_lem n _ w)

  pub delete_bucket_lem :
      (n : String) (w : W)
      → Post (OnOk (Changes view (BucketRemoved n) w)) (delete_bucket sdk m n) w
  unfolding delete_bucket
  delete_bucket_lem n w =
      Post-ok _ w
        (λ a v (gone, others, rest). record {
          bucket_gone = gone;
          quotas_kept = λ o e. ap int64_of (others o e).0;
          paths_kept = λ o e. ap (λ f p. f (canonical (p ++ "/.keep"))) (others o e).1;
          rest_same = ap (backend_of canonical) rest;
        })
        (serving.remove_bucket_lem n w)

  pub create_path_lem :
      (b p : String) (w : W)
      → Post (OnOk (Changes view (PathAdded b p) w)) (create_path sdk m b p) w
  unfolding create_path
  create_path_lem b p w =
      Post-passed _ _ w
        (λ a v e.
          subst (λ s. PathAdded b p (view w) (backend_of canonical s)) (sym e)
            (PathAdded-put canonical b p (server w) (key_lem p)))
        (serving.put_object_lem b _ "" w)

  pub path_exists_lem :
      (b p : String) (w : W)
      → Post
          (λ a v. a.1 ≡ none → Reads view (λ s. s.has_path b p) w a.0 v)
          (path_exists sdk m b p)
          w
  unfolding path_exists
  path_exists_lem b p w =
      Post-map _ _ w
        (λ x v h fine.
          let (there, kept) = stat_answer-Tells server b _ w v x h fine in (there, keeps kept))
        (serving.stat_object_lem b _ w)

  pub delete_path_lem :
      (b p : String) (w : W)
      → Post (OnOk (Changes view (PathRemoved b p) w)) (delete_path sdk m b p) w
  unfolding delete_path
  delete_path_lem b p w =
      Post-passed _ _ w
        (λ a v e.
          subst (λ s. PathRemoved b p (view w) (backend_of canonical s)) (sym e)
            (PathRemoved-put canonical b p (server w) (key_lem p)))
        (serving.remove_object_lem b _ w)

  -- Its client is made for the same endpoint, with other keys.
  pub check_user_credentials_valid_lem :
      (n a t : String) (w : W)
      → Post (OnOk (λ _ v. view v ≡ view w)) (check_user_credentials_valid sdk m n a t) w
  unfolding check_user_credentials_valid generate_minio_client
  check_user_credentials_valid_lem n a t w =
      Post-attempt _ _ _ w (pure-Finds _ w) (λ e v. record { at = tt })
        λ c v (made, same).
          Post-map _ _ v
            (λ x u kept.
              credentials_answer-keeps (λ u. view u ≡ view w) u x (keeps (kept ∙ ap server same)))
            ((libraries.new_client_lem _ c made).list_buckets_lem v)
