-- ===== src/Helpers/Client/Refused.antt =====
-- Who gets a client: only a resource that may use a ready instance. To the others an instance that
-- they may not use looks like one that is not there.
use s3_operator.Prelude.{
  String, true, ◌==◌, ◌≡◌, refl, List, [], ◌∷◌, arith, Bool-cases, inl, inr, eq_iff,
}
use s3_operator.Effect.{Error, Result, ok, err, Exit, returned, panicked, attempt, ◌>>=◌}
use s3_operator.Api.{S3Instance, NamespacedName, Condition, reconciled}
use s3_operator.S3.{S3Client}
use s3_operator.Cluster.{Reconciler}
use s3_operator.Helpers.InstanceRef.{S3InstanceInfo, get_s3_instance_ref_info}
use s3_operator.Helpers.Namespaces.{is_allowed_namespaces}
use s3_operator.Helpers.Namespaces.Globs.{MayUse, is_allowed_namespaces_iff}
use s3_operator.Helpers.Client.{
  get_s3_client_from_s3_instance, client_if_ready, client_if_allowed, get_s3_client_for_ressource,
}

-- The instance that a reference names, as a key of the API server.
abbrev pub instance_key : String → String → NamespacedName
instance_key ns ref =
    let info = get_s3_instance_ref_info ref ns in
    record { namespace = info.namespace; name = info.name }

-- The first condition says that the instance is reconciled.
abbrev pub IsReady : List Condition → Type 0
IsReady [] = ⊥
IsReady (c ∷ _) = c.reason ≡ reconciled

module _ {W : Type 0} (r : Reconciler W) where
  -- Why a resource in `ns` that refers to `ref` got the client `c`, from `w` to `w'`.
  pub record Granted (ns ref : String) (w : W) (c : S3Client W) (w' : W) : Type 0 where
    pub instance_read : S3Instance
    pub world_read : W
    pub reads :
        r.s3_instances.get (instance_key ns ref) w ≡ (returned (ok instance_read), world_read)
    pub may_use : MayUse ns instance_read
    pub ready : IsReady instance_read.conditions
    pub connects : get_s3_client_from_s3_instance r instance_read world_read ≡ (returned (ok c), w')

  if_ready_inv :
      (s : S3Instance) (cs : List Condition) (v w' : W) (c : S3Client W)
      → client_if_ready r s cs v ≡ (returned (ok c), w')
      → IsReady cs × (get_s3_client_from_s3_instance r s v ≡ (returned (ok c), w'))
  unfolding client_if_ready
  if_ready_inv s [] v w' c h = absurd (cc)
  if_ready_inv s (d ∷ _) v w' c h = elim (Bool-cases (d.reason == reconciled)) [
    | inl e ↦ ((eq_iff d.reason reconciled).0 e, rw e at h)
    | inr e ↦ absurd (ground (arith, e, h))
  ]

  if_allowed_inv :
      (ns : String) (info : S3InstanceInfo) (s : S3Instance) (v w' : W) (c : S3Client W)
      → client_if_allowed r ns info s v ≡ (returned (ok c), w')
      → (is_allowed_namespaces ns s ≡ true)
        × (client_if_ready r s s.conditions v ≡ (returned (ok c), w'))
  unfolding client_if_allowed
  if_allowed_inv ns info s v w' c h = elim (Bool-cases (is_allowed_namespaces ns s)) [
    | inl e ↦ (e, rw e at h)
    | inr e ↦ absurd (ground (arith, e, h))
  ]

  granted :
      (ns ref : String) (w : W) (c : S3Client W) (w' : W) (x : Exit (Result S3Instance) × W)
      → r.s3_instances.get (instance_key ns ref) w ≡ x
      → get_s3_client_for_ressource r ns ref w ≡ (returned (ok c), w')
      → Granted ns ref w c w'
  unfolding get_s3_client_for_ressource attempt ◌>>=◌
  granted ns ref w c w' (panicked, v) e h = absurd (cc (rw e at h))
  granted ns ref w c w' (returned (err b), v) e h = absurd (cc (rw e at h))
  granted ns ref w c w' (returned (ok s), v) e h =
      let a = if_allowed_inv ns (get_s3_instance_ref_info ref ns) s v w' c (rw e at h) in
      let b = if_ready_inv s s.conditions v w' c a.1 in
      record {
        instance_read = s;
        world_read = v;
        reads = e;
        may_use = (is_allowed_namespaces_iff ns s).0 a.0;
        ready = b.0;
        connects = b.1;
      }

  -- A resource in the namespace `ns` that refers to `ref` gets a client only if the instance that
  -- was read under that reference may be used from `ns` and is reconciled by its first condition,
  -- and then it is the client of that instance.
  pub client_Granted :
      (ns ref : String) (w : W) (c : S3Client W) (w' : W)
      → get_s3_client_for_ressource r ns ref w ≡ (returned (ok c), w')
      → Granted ns ref w c w'
  client_Granted ns ref w c w' h = granted ns ref w c w' _ refl h

  -- An instance that is read, but that the namespace may not use, is reported as one that does not
  -- exist: the answer is the one in a cluster where the same query says that it is not found.
  pub forbidden-is_not_found :
      (r' : Reconciler W) (ns ref : String) (s : S3Instance) (e : Error) (w v v' : W)
      → r.s3_instances.get (instance_key ns ref) w ≡ (returned (ok s), v)
      → ¬ MayUse ns s
      → e.is_not_found ≡ true
      → r'.s3_instances.get (instance_key ns ref) w ≡ (returned (err e), v')
      → (get_s3_client_for_ressource r ns ref w).0 ≡ (get_s3_client_for_ressource r' ns ref w).0
  unfolding get_s3_client_for_ressource client_if_allowed attempt ◌>>=◌
  forbidden-is_not_found r' ns ref s e w v v' reads barred missing reads' =
      rw (reads, reads', missing)
        (elim (Bool-cases (is_allowed_namespaces ns s)) [
          | inl a ↦ absurd (barred ((is_allowed_namespaces_iff ns s).0 a))
          | inr a ↦ rw a refl
        ])
