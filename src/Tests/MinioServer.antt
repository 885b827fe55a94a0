-- ===== src/Tests/MinioServer.antt =====
-- A MinIO server to try the operator on, with the libraries that reach it. It knows one policy,
-- readers, which it gives to users and does not take back. It models no code.
use Prim.Native.Char.{code}
use Prim.Native.String.{[], ◌∷◌}
use mathlib.Core.Path.{fun_ext}
use mathlib.Core.Bool.{false≢true}
use mathlib.Core.List as L
use s3_operator.Prelude.{
  String, ◌++◌, Bool, true, false, ◌&&◌, ◌||◌, ◌==◌, ◌=ℕ◌, ◌≡◌, refl, ap, subst, Option, none, some,
  is_some, contains, ℕ, if◌then◌else◌, Bool-cases, inl, inr, eq_iff, arith,
}
use s3_operator.Effect.{Error, errorf, Result, ok, err, Eff, Exit, returned, pure, ok_injective}
use s3_operator.Effect.Post.{Either, Holds}
use s3_operator.Text.{trim_space, trim_left_space, trim_right_space, is_space, join}
use s3_operator.Text.Split.{slash-append}
use s3_operator.S3.{PolicyInfo}
use mathlib.Core.Option
use s3_operator.S3.Backend.{put, put₂, StoredPolicy}
use s3_operator.S3.Minio.Sdk.{MinioClient, AdminClient, UserInfo, hard_quota, Libraries}
use s3_operator.S3.Minio.Server.{
  ServerState, Lists, Tells, Turns, IsServing, IsAdministering, IsSdk,
}
use s3_operator.Tests.World.{compacted, compacted-denotes}

pub record MinioWorld : Type 0 where
  pub disk : ServerState
  pub readers : String → Bool

abbrev pub server : MinioWorld → ServerState
server w = record w.disk { user_has = λ n p. w.readers n && "readers" == p }

-- The server drops the slashes in front of a key.
unfoldable pub strip : String → String
strip [] = []
strip (c ∷ key) = let rest = strip key in if code c =ℕ b'/' then rest else c ∷ key

strip_slash : (key : String) → strip ("/" ++ key) ≡ strip key
unfolding strip
strip_slash key = rw (slash-append key) refl

abbrev coded : String → ℕ → Error
coded code status = record {
  is_not_found = false;
  code = code;
  status_code = status;
  text = "the server refuses";
}

abbrev stored : (ServerState → ServerState) → Eff MinioWorld (Result (Unit {0}))
stored f w = (returned (ok tt), record w { disk = f w.disk })

abbrev pub found_if : Bool → Result (Unit {0})
found_if true = ok tt
found_if false = err (coded "NoSuchKey" 404)

abbrev pub minio_client : MinioClient MinioWorld
minio_client = record {
  bucket_exists = λ n w. (returned (ok (w.disk.has_bucket n)), w);
  make_bucket = λ n region. stored (λ s. record s { has_bucket = put n true s.has_bucket });
  list_buckets = pure (ok L.[]);
  remove_bucket = λ n. stored (λ s. record s { has_bucket = put n false s.has_bucket });
  put_object = λ b k t. stored (λ s. record s { has_object = put₂ b (strip k) true s.has_object });
  stat_object = λ b k w. (returned (found_if (w.disk.has_object b (strip k))), w);
  remove_object =
      λ b k. stored (λ s. record s { has_object = put₂ b (strip k) false s.has_object });
}

abbrev policy_or : Option String → Result PolicyInfo
policy_or none = err (coded "XMinioAdminNoSuchPolicy" 404)
policy_or (some t) = ok (record { policy = t })

abbrev names_if : Bool → String
names_if true = "readers"
names_if false = ""

abbrev info_or : Option String → Bool → Result UserInfo
info_or none held = err (coded "XMinioAdminNoSuchUser" 404)
info_or (some k) held = ok (record { policy_name = names_if held })

-- What a request to attach policies does: it must be for readers alone.
abbrev attach_if : Bool → String → MinioWorld → Exit (Result (Unit {0})) × MinioWorld
attach_if true n w = (returned (ok tt), record w { readers = put n true w.readers })
attach_if false n w = (returned (err (errorf "no such policy")), w)

abbrev is_readers : L.List String → Bool
is_readers L.[] = false
is_readers (L.◌∷◌ p L.[]) = "readers" == p
is_readers (L.◌∷◌ p (L.◌∷◌ q ps)) = false

abbrev no_such_policy : Eff MinioWorld (Result (Unit {0}))
no_such_policy = pure (err (errorf "no such policy"))

abbrev pub admin_client : AdminClient MinioWorld
admin_client = record {
  get_bucket_quota =
      λ n w. (returned (ok (record { size = w.disk.quota_of n; type = hard_quota })), w);
  set_bucket_quota = λ n q. stored (λ s. record s { quota_of = put n q.size s.quota_of });
  info_canned_policy =
      λ n w. (returned (policy_or (Option.map (λ q. q.text) (w.disk.policy_of n))), w);
  add_canned_policy =
      λ n t. stored (λ s. record s { policy_of = put n (some (compacted t)) s.policy_of });
  list_policies = λ n. pure (ok L.[]);
  remove_canned_policy = λ n. stored (λ s. record s { policy_of = put n none s.policy_of });
  add_user = λ n k. stored (λ s. record s { secret_key_of = put n (some k) s.secret_key_of });
  add_service_account = λ r. pure (ok tt);
  get_user_info = λ n w. (returned (info_or (w.disk.secret_key_of n) (w.readers n)), w);
  remove_user = λ n. stored (λ s. record s { secret_key_of = put n none s.secret_key_of });
  detach_policy = λ r. no_such_policy;
  attach_policy = λ r w. attach_if (is_readers r.policies) r.user w;
}

abbrev pub sdk : Libraries MinioWorld (L.List String)
sdk = record {
  new_client = λ endpoint o. ok minio_client;
  new_admin_client = λ endpoint o. ok admin_client;
  parse_url = λ url. ok (record { scheme = "https"; hostname = "minio.example.com"; port = "443" });
  system_cert_pool = none;
  new_cert_pool = L.[];
  append_certs_from_pem = λ pool c. L.◌∷◌ c pool;
}

found_if_lem :
    (b : Bool) (w : MinioWorld) (key bucket : String)
    → (w.disk.has_object bucket (strip key)) ≡ b
    → Either
        (Tells server (λ s _. s.has_object bucket (strip key) ≡ true) w)
        (λ e. e.status_code =ℕ 404)
        (Tells server (λ s w'. s.has_object bucket (strip key) ≡ false) w tt)
        (found_if b)
        w
found_if_lem true w key bucket h = (h, refl)
found_if_lem false w key bucket h = λ _. (h, refl)

minio_client-IsServing : IsServing server strip minio_client
minio_client-IsServing = record {
  bucket_exists_lem = λ n w. record { at = (refl, refl) };
  make_bucket_lem = λ n region w. record { at = refl };
  list_buckets_lem = λ w. record { at = refl };
  remove_bucket_lem = λ n w. record { at = (refl, (λ m e. (refl, refl)), refl) };
  put_object_lem = λ b k t w. record { at = refl };
  stat_object_lem = λ b k w. record { at = found_if_lem _ w k b refl };
  remove_object_lem = λ b k w. record { at = refl };
}

policy_or_lem :
    (o : Option StoredPolicy) (n : String) (w : MinioWorld)
    → w.disk.policy_of n ≡ o
    → Either
        (Tells server (λ s p. Option.map (λ q. q.text) (s.policy_of n) ≡ some p.policy) w)
        (λ e. e.code == "XMinioAdminNoSuchPolicy")
        (Tells server (λ s _. s.policy_of n ≡ none) w tt)
        (policy_or (Option.map (λ q. q.text) o))
        w
policy_or_lem none n w h = λ _. (h, refl)
policy_or_lem (some q) n w h = (ap (Option.map (λ q. q.text)) h, refl)

pub names_if-Lists : (held : Bool) → Lists (λ p. held && "readers" == p) (names_if held)
unfolding trim_space trim_left_space trim_right_space is_space join
names_if-Lists true = (
  L.◌∷◌ "readers" L.[],
  refl,
  ((refl, (refl, (refl, (refl, (refl, (refl, (refl, (refl, tt)))))))), tt),
  λ p. ground arith,
)
names_if-Lists false = (L.[], refl, tt, λ p. refl)

info_or_lem :
    (o : Option String) (held : Bool) (n : String) (w : MinioWorld)
    → w.disk.secret_key_of n ≡ o
    → w.readers n ≡ held
    → Either
        (Tells server
          (λ s u. (is_some (s.secret_key_of n) ≡ true) × Lists (s.user_has n) u.policy_name)
          w)
        (λ e. e.code == "XMinioAdminNoSuchUser")
        (Tells server (λ s _. s.secret_key_of n ≡ none) w tt)
        (info_or o held)
        w
info_or_lem none held n w h e = λ _. (h, refl)
info_or_lem (some k) held n w h e = ((ap is_some h, rw e (names_if-Lists held)), refl)

-- What the server makes of a request to attach the one policy.
attached :
    (n p : String) (w : MinioWorld)
    → "readers" ≡ p
    → server (record w { readers = put n true w.readers }) ≡ record (server w) {
      user_has =
          put n (λ q. (server w).user_has n q || contains (L.◌∷◌ p L.[]) q) (server w).user_has;
    }
attached n p w h =
    subst
      (λ p. server (record w { readers = put n true w.readers }) ≡ record (server w) {
        user_has =
            put n (λ q. (server w).user_has n q || contains (L.◌∷◌ p L.[]) q) (server w).user_has;
      })
      h
      (ap (λ f. record w.disk { user_has = f })
        (fun_ext λ m.
          fun_ext
            λ q. elim (Bool-cases (n == m)) [ inl e ↦ rw e (ground arith) | inr e ↦ rw e refl ]))

abbrev Attaches :
    String → L.List String → MinioWorld → Exit (Result (Unit {0})) × MinioWorld → Type 0
Attaches n ps w x =
    Holds
      (Either
        (Turns server
          (λ s. record s { user_has = put n (λ p. s.user_has n p || contains ps p) s.user_has }) w)
        (λ e. e.code == "XMinioAdminPolicyChangeAlreadyApplied")
        (Tells server (λ s _. (p : String) → contains ps p ≡ true → s.user_has n p ≡ true) w tt))
      x

attach_if_lem :
    (b : Bool) (n p : String) (w : MinioWorld)
    → ("readers" == p) ≡ b
    → Attaches n (L.◌∷◌ p L.[]) w (attach_if b n w)
attach_if_lem true n p w h = attached n p w ((eq_iff "readers" p).0 h)
attach_if_lem false n p w h = λ t. absurd (false≢true t)

attach_policy_lem :
    (n : String) (ps : L.List String) (w : MinioWorld)
    → Attaches n ps w (attach_if (is_readers ps) n w)
attach_policy_lem n L.[] w = λ t. absurd (false≢true t)
attach_policy_lem n (L.◌∷◌ p L.[]) w = attach_if_lem _ n p w refl
attach_policy_lem n (L.◌∷◌ p (L.◌∷◌ q ps)) w = λ t. absurd (false≢true t)

pub admin_client-IsAdministering : IsAdministering server admin_client
admin_client-IsAdministering = record {
  get_bucket_quota_lem = λ n w. record { at = (refl, refl) };
  set_bucket_quota_lem = λ n q w. record { at = refl };
  info_canned_policy_lem = λ n w. record { at = policy_or_lem _ n w refl };
  add_canned_policy_lem = λ n t w. record { at = (compacted t, compacted-denotes t, refl) };
  remove_canned_policy_lem = λ n w. record { at = refl };
  add_user_lem = λ n k w. record { at = refl };
  get_user_info_lem = λ n w. record { at = info_or_lem _ _ n w refl refl };
  remove_user_lem = λ n w. record { at = (refl, (λ m e. refl), refl) };
  attach_policy_lem = λ n ps w. record { at = attach_policy_lem n ps w };
  detach_policy_lem = λ n ps w. record { at = λ t. absurd (false≢true t) };
}

pub sdk-IsSdk : IsSdk server strip "minio.example.com" sdk
sdk-IsSdk = record {
  canonical_lem = strip_slash;
  new_client_lem =
      λ o c made. subst (IsServing server strip) (ok_injective made) minio_client-IsServing;
  new_admin_client_lem =
      λ o c made. subst (IsAdministering server) (ok_injective made) admin_client-IsAdministering;
}
