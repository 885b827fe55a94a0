-- ===== src/S3/Minio/Answers.antt =====
-- internal/s3/client/impl/minioS3Client.go: what the client makes of the answers of the server, by
-- the status and the code of an error.
use mathlib.Core.Option
use s3_operator.Prelude.{
  String, true, false, ◌==◌, ◌=ℕ◌, ◌≡◌, refl, sym, ap, Option, none, some, is_some, List,
  Bool-cases, inl, inr,
}
use s3_operator.Effect.{Result, ok, err}
use s3_operator.Effect.Post.{OnOk, Either}
use s3_operator.S3.{PolicyInfo}
use s3_operator.S3.Backend.{StoredPolicy}
use s3_operator.S3.Laws.{info_of}
use s3_operator.S3.Minio.Sdk.{BucketInfo, UserInfo}
use s3_operator.S3.Minio.Server.{ServerState, Keeps, Tells}
use s3_operator.S3.Minio.{stat_answer, policy_answer, user_answer, unless_code, credentials_answer}

map_text-info :
    (o : Option StoredPolicy) (p : PolicyInfo)
    → Option.map (λ q. q.text) o ≡ some p.policy
    → Option.map info_of o ≡ some p
map_text-info none p h = absurd (cc)
map_text-info (some q) p h = ap (Option.map (λ t. record { policy = t })) h

module _ {W : Type 0} (server : W → ServerState) where
  pub stat_answer-Tells :
      (b k : String) (w v : W) (x : Result (Unit {0}))
      → Either
          (Tells server (λ s _. s.has_object b k ≡ true) w)
          (λ e. e.status_code =ℕ 404)
          (Tells server (λ s _. s.has_object b k ≡ false) w tt)
          x
          v
      → (stat_answer x).1 ≡ none
      → ((stat_answer x).0 ≡ (server w).has_object b k) × Keeps server w v
  unfolding stat_answer
  stat_answer-Tells b k w v (ok a) (there, kept) fine = (sym there, kept)
  stat_answer-Tells b k w v (err e) h fine = elim (Bool-cases (e.status_code =ℕ 404)) [
    | inl t ↦ rw t (let (gone, kept) = h t in (sym gone, kept))
    | inr f ↦ absurd (cc (rw f at fine))
  ]

  pub policy_answer-Tells :
      (G : W → Type 0) (n : String) (w v : W) (x : Result PolicyInfo)
      → (Keeps server w v → G v)
      → Either
          (Tells server (λ s p. Option.map (λ q. q.text) (s.policy_of n) ≡ some p.policy) w)
          (λ e. e.code == "XMinioAdminNoSuchPolicy")
          (Tells server (λ s _. s.policy_of n ≡ none) w tt)
          x
          v
      → OnOk (λ a v. (a ≡ Option.map info_of ((server w).policy_of n)) × G v) (policy_answer x) v
  unfolding policy_answer
  policy_answer-Tells G n w v (ok p) keeps (there, kept) =
      (sym (map_text-info ((server w).policy_of n) p there), keeps kept)
  policy_answer-Tells G n w v (err e) keeps h =
      elim (Bool-cases (e.code == "XMinioAdminNoSuchPolicy")) [
        | inl t ↦ rw t (let (gone, kept) = h t in (rw gone refl, keeps kept))
        | inr f ↦ rw f tt
      ]

  pub user_answer-Tells :
      (G : W → Type 0) (has : UserInfo → Type 0) (n : String) (w v : W) (x : Result UserInfo)
      → (Keeps server w v → G v)
      → Either
          (Tells server (λ s u. (is_some (s.secret_key_of n) ≡ true) × has u) w)
          (λ e. e.code == "XMinioAdminNoSuchUser")
          (Tells server (λ s _. s.secret_key_of n ≡ none) w tt)
          x
          v
      → OnOk (λ a v. (a ≡ is_some ((server w).secret_key_of n)) × G v) (user_answer x) v
  unfolding user_answer
  user_answer-Tells G has n w v (ok u) keeps ((there, _), kept) = (sym there, keeps kept)
  user_answer-Tells G has n w v (err e) keeps h =
      elim (Bool-cases (e.code == "XMinioAdminNoSuchUser")) [
        | inl t ↦ rw t (let (gone, kept) = h t in (rw gone refl, keeps kept))
        | inr f ↦ rw f tt
      ]

module _ {W : Type 0} where
  -- What holds behind a call without an error holds behind one with the code, if that means so.
  pub unless_code-Either :
      (P : Unit {0} → W → Type 0) (Q : W → Type 0) (G : Unit {0} → W → Type 0) (code : String)
      (x : Result (Unit {0})) (v : W)
      → (P tt v → G tt v)
      → (Q v → G tt v)
      → Either P (λ e. e.code == code) Q x v
      → OnOk G (unless_code code x) v
  unfolding unless_code
  unless_code-Either P Q G code (ok a) v f g h = f h
  unless_code-Either P Q G code (err e) v f g h = elim (Bool-cases (e.code == code)) [
    | inl t ↦ rw t (g (h t))
    | inr n ↦ rw n tt
  ]

  pub credentials_answer-keeps :
      (G : W → Type 0) (v : W) (x : Result (List BucketInfo))
      → G v
      → OnOk (λ _ v. G v) (credentials_answer x) v
  unfolding credentials_answer
  credentials_answer-keeps G v (ok a) h = h
  credentials_answer-keeps G v (err e) h = elim (Bool-cases (e.code == "SignatureDoesNotMatch")) [
    | inl t ↦ rw t h
    | inr f ↦
        rw f
          (elim (Bool-cases (e.code == "InvalidAccessKeyId")) [ inl t ↦ rw t h | inr g ↦ rw g tt ])
  ]
