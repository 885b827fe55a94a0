-- ===== src/S3/Factory/Connects.antt =====
-- internal/s3/factory/impl/s3factoryImpl.go: the factory makes a lawful client for an S3 instance
-- of MinIO, and making a client contacts no server.
use s3_operator.Prelude.{
  String, Bool, true, false, ◌==◌, ◌&&◌, ◌≡◌, refl, ap, sym, subst, ◌∙◌, eq_iff, Bool-cases, inl,
  inr,
}
use s3_operator.Effect.{Result, ok, err}
use s3_operator.Effect.Post.{OnOk, Post, Post-attempt, Post-ok, pure-Finds}
use s3_operator.Effect.Returns.{Returns, Returns-handle, Returns→Post}
use s3_operator.Effect.Leaves.{Leaves, Leaves-attempt, Leaves-pure}
use s3_operator.S3.{S3Config}
use s3_operator.S3.Backend.{Backend}
use s3_operator.S3.Minio.Sdk.{Libraries}
use s3_operator.S3.Minio.Clients.{Endpoint, construct_endpoint_from_url, new_minio_s3_client}
use s3_operator.S3.Minio.Server.{ServerState, backend_of, IsSdk}
use s3_operator.S3.Minio.Implements.{new_minio_s3_client-IsLawful, new_minio_s3_client-config}
use s3_operator.S3.Minio.{minio_s3_client}
use s3_operator.S3.Mocked.{new_mocked_s3_client, mocked_s3_client}
use s3_operator.S3.Factory.{
  located, minio_client_of, client_of_provider, generate_s3_client, new_s3_factory,
}
use s3_operator.Text.Laws.{&&-true}
use s3_operator.Api.{NamespacedName}
use s3_operator.Cluster.{Reconciler}
use s3_operator.Cluster.Laws.{Connects, IsConnected}

module _ {W P : Type 0} (sdk : Libraries W P) where
  client_of_provider-Leaves :
      {V : Type 0} (view : W → V) (p : String) (g : S3Config)
      → Leaves view (client_of_provider sdk p g)
  unfolding client_of_provider minio_client_of
  client_of_provider-Leaves view p g = elim (Bool-cases (p == "mockedS3Provider")) [
    | inl t ↦ rw t (Leaves-pure _)
    | inr f ↦ rw f (elim (Bool-cases (p == "minio")) [
      | inl t ↦
          rw t (Leaves-attempt _ _ _ (Leaves-pure _) (λ e. Leaves-pure _) (λ m. Leaves-pure _))
      | inr g ↦ rw g (Leaves-pure _)
    ])
  ]

  -- Whatever the provider and the URL, and whether or not there is a client.
  pub generate_s3_client-Leaves :
      {V : Type 0} (view : W → V) (p : String) (g : S3Config)
      → Leaves view (generate_s3_client sdk p g)
  unfolding generate_s3_client
  generate_s3_client-Leaves view p g =
      Leaves-attempt _ _ _ (Leaves-pure _) (λ e. Leaves-pure _)
        (λ e. client_of_provider-Leaves view p (located e g))

  minio_client_of-config :
      (g : S3Config) (w : W) → Post (OnOk (λ c _. c.get_config ≡ g)) (minio_client_of sdk g) w
  unfolding minio_client_of minio_s3_client
  minio_client_of-config g w =
      Post-attempt _ _ _ w (pure-Finds _ w) (λ e v. record { at = tt })
        λ m v (made, _). record { at = new_minio_s3_client-config sdk g m made }

  client_of_provider-config :
      (p : String) (g : S3Config) (w : W)
      → Post (OnOk (λ c _. c.get_config ≡ g)) (client_of_provider sdk p g) w
  unfolding client_of_provider mocked_s3_client new_mocked_s3_client
  client_of_provider-config p g w = elim (Bool-cases (p == "mockedS3Provider")) [
    | inl t ↦ rw t (record { at = refl })
    | inr f ↦ rw f (elim (Bool-cases (p == "minio")) [
      | inl t ↦ rw t (minio_client_of-config g w)
      | inr n ↦ rw n (record { at = tt })
    ])
  ]

  -- A client has the configuration that it was asked for, but for what the URL says.
  pub generate_s3_client-keeps :
      (switch : S3Config → Bool)
      → ((e : Endpoint) (g : S3Config) → switch (located e g) ≡ switch g)
      → (p : String) (g : S3Config) (w : W)
      → Post (OnOk (λ c _. switch c.get_config ≡ switch g)) (generate_s3_client sdk p g) w
  unfolding generate_s3_client
  generate_s3_client-keeps switch apart p g w =
      Post-attempt _ _ _ w (pure-Finds _ w) (λ e v. record { at = tt })
        λ e v _.
          Post-ok _ v (λ c u h. ap switch h ∙ apart e g)
            (client_of_provider-config p (located e g) v)

-- A URL whose endpoint is the one given.
abbrev pub is_at : String → Result Endpoint → Bool
is_at endpoint (ok e) = e.endpoint == endpoint
is_at endpoint (err e) = false

module _ {W P : Type 0} (sdk : Libraries W P) where
  -- The instances whose backend is the server: those of MinIO at its endpoint.
  abbrev pub reaches : String → String → String → Bool
  reaches endpoint p url = p == "minio" && is_at endpoint (construct_endpoint_from_url sdk url)

  -- The reconciler with the operator's own factory, as cmd/main.go has it.
  abbrev pub wired : Reconciler W → Reconciler W
  wired r = record r { s3_factory = new_s3_factory sdk }

module _ {W P : Type 0} (server : W → ServerState) (canonical : String → String) (endpoint : String)
    (sdk : Libraries W P) (h : IsSdk server canonical endpoint sdk) where
  abbrev view : W → Backend
  view w = backend_of canonical (server w)

  minio_client_of-Connects :
      (g : S3Config) (w : W)
      → g.endpoint ≡ endpoint
      → Returns (Connects view w) (minio_client_of sdk g) w
  unfolding minio_client_of
  minio_client_of-Connects g w e =
      Returns-handle (λ x v. (new_minio_s3_client sdk g ≡ x) × (v ≡ w)) _ _ _ w
        (record { at = (refl, refl) }) (λ x v (_, same). record { at = ap view same })
        λ m v (made, same). record {
          at = (
            new_minio_s3_client-IsLawful server canonical sdk g m
                (subst (λ x. IsSdk server canonical x sdk) (sym e) h) made,
            ap view same,
          );
        }

  client_of_provider-Connects :
      (p : String) (e : Endpoint) (g : S3Config) (w : W)
      → p ≡ "minio"
      → e.endpoint ≡ endpoint
      → Returns (Connects view w) (client_of_provider sdk p (located e g)) w
  unfolding client_of_provider
  client_of_provider-Connects p e g w minio at =
      subst (λ p. Returns (Connects view w) (client_of_provider sdk p (located e g)) w) (sym minio)
        (minio_client_of-Connects (located e g) w at)

  pub generate_s3_client-Connects :
      (p : String) (g : S3Config) (w : W)
      → reaches sdk endpoint p g.s3_url ≡ true
      → Returns (Connects view w) (generate_s3_client sdk p g) w
  unfolding generate_s3_client
  generate_s3_client-Connects p g w to =
      let (minio, at) = &&-true _ _ to in
      Returns-handle (λ x v. (construct_endpoint_from_url sdk g.s3_url ≡ x) × (v ≡ w)) _ _ _ w
        (record { at = (refl, refl) }) (λ x v (_, same). record { at = ap view same })
        λ e v (parsed, same).
          subst (λ u. Returns (Connects view u) (client_of_provider sdk p (located e g)) v) same
            (client_of_provider-Connects p e g v ((eq_iff p "minio").0 minio)
              ((eq_iff e.endpoint endpoint).0 (sym (ap (is_at endpoint) parsed) ∙ at)))

  pub wired-IsConnected :
      (r : Reconciler W)
      → ((k : NamespacedName) → Leaves view (r.s3_instances.get k))
      → ((k : NamespacedName) (w : W)
          → Post
              (OnOk (λ i _. reaches sdk endpoint i.spec.s3_provider i.spec.url ≡ true))
              (r.s3_instances.get k)
              w)
      → ((k : NamespacedName) → Leaves view (r.secrets.get k))
      → IsConnected view (wired sdk r)
  unfolding new_s3_factory
  wired-IsConnected r instances reach secrets = record {
    serves = reaches sdk endpoint;
    get_instance_lem = instances;
    instance_serves_lem = reach;
    get_secret_lem = secrets;
    generate_lem = λ p g w to. Returns→Post _ w (generate_s3_client-Connects p g w to);
    generate_leaves_lem = generate_s3_client-Leaves sdk view;
  }
