-- ===== src/Helpers/Condition/Settles.antt =====
-- A report of success ends without an error, if the condition can be written.
use s3_operator.Prelude.{String, Bool, true, false, ◌≡◌, refl, Option, none, some, List}
use s3_operator.Effect.{Error}
use s3_operator.Effect.Returns.{Returns, Returns-bind}
use s3_operator.Effect.Settles.{Settles}
use s3_operator.Api.{Condition, Resource}
use s3_operator.Cluster.{ResourceClient, Reconciler}
use s3_operator.Helpers.Condition.{after_write, write_if, set_reconciled_condition, report}

module _ {W Spec : Type 0} (r : Reconciler W) (client : ResourceClient W Spec)
    (writes : (o : Resource Spec) (w : W)
      → Returns (λ x _. x.1 ≡ none) (client.update_status o) w) where
  after_write-none :
      (x : Resource Spec × Option Error) → x.1 ≡ none → (after_write r client none x).0.error ≡ none
  after_write-none (o, none) fine = refl
  after_write-none (o, some e) fine = absurd (cc)

  write_if-Settles :
      (o : Resource Spec) (x : List Condition × Bool) (w : W)
      → Returns (λ a _. a.0.error ≡ none) (write_if r client none o x) w
  write_if-Settles o (cs, true) w =
      Returns-bind {P = λ x _. x.1 ≡ none} _ _ w (writes _ w)
        (λ x v fine. record { at = after_write-none x fine })
  write_if-Settles o (cs, false) w = record { at = refl }

  pub report-Settles :
      (o : Resource Spec) (reason message : String)
      → Settles (report r client o reason message none)
  unfolding report set_reconciled_condition
  report-Settles o reason message w =
      Returns-bind _ _ w (write_if-Settles o _ w) (λ a v fine. record { at = fine })
