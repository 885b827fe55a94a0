-- ===== src/Helpers/Client/Serves.antt =====
-- How each handler begins: it asks for a client, and reports it if there is none.
use s3_operator.Prelude.{String, ◌≡◌, some}
use s3_operator.Effect.{Eff, attempt, Outcome}
use s3_operator.Effect.Post.{Post, Post-attempt, Sound}
use s3_operator.Api.{Resource, unreachable}
use s3_operator.S3.{S3Client}
use s3_operator.S3.Backend.{Backend}
use s3_operator.S3.Laws.{IsLawful}
use s3_operator.Cluster.{ResourceClient, Reconciler}
use s3_operator.Cluster.Laws.{IsConnected, Connected}
use s3_operator.Helpers.Condition.{report}
use s3_operator.Helpers.Condition.Reports.{report-Sound}
use s3_operator.Helpers.Client.{get_s3_client_for_ressource}
use s3_operator.Helpers.Client.Connects.{for_ressource-Connected}

module _ {W : Type 0} {view : W → Backend} {r : Reconciler W} (k : IsConnected view r)
    {G : W → Type 0} {Spec : Type 0} (client : ResourceClient W Spec) where
  -- The rest of the handler works with a lawful client, on the backend as it was.
  pub for_ressource-Sound :
      (o : Resource Spec) (ns ref message : String) (rest : S3Client W → Eff W Outcome) (w : W)
      → ((c : S3Client W) (v : W) → IsLawful view c → view v ≡ view w → Post (Sound G) (rest c) v)
      → Post
          (Sound G)
          (attempt
            (get_s3_client_for_ressource r ns ref)
            (λ e. report r client o unreachable message (some e))
            rest)
          w
  for_ressource-Sound o ns ref message rest w h =
      Post-attempt {P = Connected view w} _ _ _ w (for_ressource-Connected k _ _ w)
        (λ e v. report-Sound r client o _ _ e v) (λ c v (lawful, same). h c v lawful same)
