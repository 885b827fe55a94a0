-- ===== src/Policy/Deletes.antt =====
-- What a policy's deletion brings about on the backend, if it returns no error.
use s3_operator.Prelude.{String, Bool, true, ◌≡◌, none}
use s3_operator.Effect.{returned, Outcome}
use s3_operator.Effect.Post.{Post, Post-run, Sound}
use s3_operator.Api.{Policy}
use s3_operator.S3.Backend.{Backend, with_policy}
use s3_operator.Cluster.{Reconciler}
use s3_operator.Cluster.Laws.{IsConnected, IsUpdating}
use s3_operator.Helpers.Client.Gives.{Permits, Permitted, for_ressource-Permitted}
use s3_operator.Lifecycle.Deletes.{handle_deletion-Sound}
use s3_operator.Policy.{policy_finalizer, finalize_policy, handle_deletion}

-- From `s` to `t` the policy is gone, and nothing else has changed.
abbrev pub PolicyRemoved : String → Backend → Backend → Type 0
PolicyRemoved n s t = t ≡ with_policy n none s

module _ {W : Type 0} {view : W → Backend} {r : Reconciler W} (k : IsConnected view r)
    (updating : IsUpdating view r.policies) (enabled : Bool)
    (permits : Permits (λ g. g.policy_deletion_enabled) enabled r) where
  pub handle_deletion-Did :
      (p : Policy) (w : W)
      → r.machinery.contains_finalizer p.finalizers policy_finalizer ≡ true
      → Post
          (Sound (λ v. Permitted enabled (PolicyRemoved p.spec.name) (view w) (view v)))
          (handle_deletion r p)
          w
  unfolding handle_deletion finalize_policy
  handle_deletion-Did p w has =
      handle_deletion-Sound r r.policies updating
        (Permitted enabled (PolicyRemoved p.spec.name) (view w)) _ _ _ p w has
        (for_ressource-Permitted k (λ g. g.policy_deletion_enabled) enabled permits
          (PolicyRemoved p.spec.name) (λ c. c.delete_policy p.spec.name)
          (λ c u lawful. lawful.delete_policy_lem p.spec.name u) p.namespace p.spec.s3_instance_ref
          w)

  -- Where clients are lawful, the API server's calls leave the backend alone, and the deletion of
  -- policies is enabled for all the instances that are read, or for none: if the deletion of a
  -- policy that has the operator's finalizer returns no error, the policy is gone from the backend
  -- where deletion is enabled, and nothing else, and else the backend is as it was.
  handle_deletion-PolicyRemoved :
      (p : Policy) (w v : W) (a : Outcome)
      → r.machinery.contains_finalizer p.finalizers policy_finalizer ≡ true
      → handle_deletion r p w ≡ (returned a, v)
      → a.error ≡ none
      → Permitted enabled (PolicyRemoved p.spec.name) (view w) (view v)
  handle_deletion-PolicyRemoved p w v a has run fine =
      Post-run _ w (handle_deletion-Did p w has) a v run fine
