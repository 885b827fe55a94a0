-- ===== src/Cluster/Laws.antt =====
-- What the controllers rely on in Kubernetes and in the factory of clients, where a theorem speaks
-- of the backend: no call of the API server changes it, and a client that the factory makes for one
-- of the S3 instances is lawful.
use s3_operator.Prelude.{String, Bool, true, ◌≡◌}
use s3_operator.Effect.{Result, ok, err, Eff}
use s3_operator.Effect.Post.{OnOk, Post, Post-weaken}
use s3_operator.Effect.Leaves.{Leaves}
use s3_operator.Api.{NamespacedName, ObjectMeta, Resource, Secret}
use s3_operator.S3.{S3Config, S3Client}
use s3_operator.S3.Backend.{Backend}
use s3_operator.S3.Laws.{IsLawful}
use s3_operator.Cluster.{ResourceClient, SecretClient, Machinery, Reconciler}

module _ {W : Type 0} (view : W → Backend) where
  -- A client that is returned is lawful, and making it leaves the backend alone.
  abbrev pub Connected : W → S3Client W → W → Type 0
  Connected w c w' = IsLawful view c × (view w' ≡ view w)

  -- The same of a result, of which an error leaves the backend alone as well.
  abbrev pub Connects : W → Result (S3Client W) → W → Type 0
  Connects w (ok c) w' = Connected w c w'
  Connects w (err e) w' = view w' ≡ view w

  -- What a handler needs to get a client.
  pub record IsConnected (r : Reconciler W) : Type 0 where
    -- The providers and URLs that reach the backend of the view.
    pub serves : String → String → Bool
    pub get_instance_lem : (k : NamespacedName) → Leaves view (r.s3_instances.get k)
    pub instance_serves_lem :
        (k : NamespacedName) (w : W)
        → Post (OnOk (λ i _. serves i.spec.s3_provider i.spec.url ≡ true)) (r.s3_instances.get k) w
    pub get_secret_lem : (k : NamespacedName) → Leaves view (r.secrets.get k)
    pub generate_lem :
        (p : String) (g : S3Config) (w : W)
        → serves p g.s3_url ≡ true
        → Post (Connects w) (r.s3_factory.generate_s3_client p g) w
    pub generate_leaves_lem :
        (p : String) (g : S3Config) → Leaves view (r.s3_factory.generate_s3_client p g)

  -- What the controller of users needs of secrets.
  pub record IsStoring (secrets : SecretClient W) : Type 0 where
    pub list_lem : (n : String) → Leaves view (secrets.list n)
    pub create_lem : (s : Secret) → Leaves view (secrets.create s)
    pub update_lem : (s : Secret) → Leaves view (secrets.update s)
    pub delete_lem : (s : Secret) → Leaves view (secrets.delete s)

  -- What a handler needs to report.
  pub record IsReporting {Spec : Type 0} (client : ResourceClient W Spec) : Type 0 where
    pub update_status_lem : (o : Resource Spec) → Leaves view (client.update_status o)

  -- What a handler needs to read the object of a request.
  pub record IsReading {Spec : Type 0} (client : ResourceClient W Spec) : Type 0 where
    pub get_lem : (k : NamespacedName) → Leaves view (client.get k)

  -- What a deletion needs to take the finalizer off.
  pub record IsUpdating {Spec : Type 0} (client : ResourceClient W Spec) : Type 0 where
    pub update_lem : (o : Resource Spec) → Leaves view (client.update o)

module _ {W V : Type 0} {view : W → V} {A : Type 0} (m : Eff W (Result A)) where
  -- A call that leaves the backend alone does so where it returns no error.
  pub OnOk-Leaves : Leaves view m → (w : W) → Post (OnOk (λ _ w'. view w' ≡ view w)) m w
  OnOk-Leaves h w = Post-weaken m w (on_ok w) (h w)
    where
      on_ok :
          (w : W) (x : Result A) (w' : W) → view w' ≡ view w → OnOk (λ _ v. view v ≡ view w) x w'
      on_ok w (ok a) w' e = e
      on_ok w (err e) w' _ = tt

module _ {W : Type 0} (view : W → Backend) where
  pub Connects-Connected :
      (w : W) (x : Result (S3Client W)) (v : W) → Connects view w x v → OnOk (Connected view w) x v
  Connects-Connected w (ok c) v h = h
  Connects-Connected w (err e) v h = tt

abbrev pub secret_key : Secret → NamespacedName
secret_key s = record { namespace = s.namespace; name = s.name }

-- What the code relies on in SetControllerReference: it keeps the name and the namespace.
pub record IsOwning (machinery : Machinery) : Type 0 where
  pub set_controller_reference_lem :
      (m : ObjectMeta) (s t : Secret)
      → machinery.set_controller_reference m s ≡ ok t
      → secret_key t ≡ secret_key s
