-- ===== src/Helpers/Condition/Closed.antt =====
-- A report makes one call, the write of the status.
use s3_operator.Prelude.{String, Bool, true, false, Option, List}
use s3_operator.Effect.{Error, Eff, Outcome}
use s3_operator.Effect.Closed.{IsClosed}
use s3_operator.Api.{Condition, Resource}
use s3_operator.Cluster.{ResourceClient, Reconciler}
use s3_operator.Helpers.Condition.{write_if, set_reconciled_condition, report}

module _ {W Spec : Type 0} {K : (A : Type 0) → Eff W A → Type 0} (closed : IsClosed K)
    (r : Reconciler W) (client : ResourceClient W Spec)
    (writes : (o : Resource Spec) → K (Resource Spec × Option Error) (client.update_status o)) where
  write_if-Closed :
      (e : Option Error) (o : Resource Spec) (x : List Condition × Bool)
      → K (Outcome × Resource Spec) (write_if r client e o x)
  write_if-Closed e o (cs, true) = closed.bind_lem _ _ (writes _) (λ a. closed.pure_lem _)
  write_if-Closed e o (cs, false) = closed.pure_lem _

  -- What holds of this call holds of the report.
  pub report-Closed :
      (o : Resource Spec) (reason message : String) (e : Option Error)
      → K Outcome (report r client o reason message e)
  unfolding report set_reconciled_condition
  report-Closed o reason message e =
      closed.bind_lem _ _ (write_if-Closed e o _) (λ a. closed.pure_lem _)
