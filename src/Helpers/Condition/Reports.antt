-- ===== src/Helpers/Condition/Reports.antt =====
-- What a report leaves: the caller's error reaches the outcome, and the backend is not touched.
use mathlib.Core.Bool.{false≢true}
use s3_operator.Prelude.{
  String, Bool, true, false, ◌≡◌, refl, sym, ◌∙◌, ap, Option, none, some, List, is_some,
}
use s3_operator.Effect.{Error, returned, Outcome}
use s3_operator.Effect.Post.{Post, Post-bind, Post-weaken, Post-always, Post-run, Sound}
use s3_operator.Api.{Condition, Resource, condition_reconciled}
use s3_operator.S3.Backend.{Backend}
use s3_operator.Cluster.{ResourceClient, Reconciler}
use s3_operator.Cluster.Laws.{IsReporting}
use s3_operator.Effect.Leaves.{Leaves}
use s3_operator.Effect.Closed.{Leaves-IsClosed}
use s3_operator.Helpers.Condition.Closed.{report-Closed}
use s3_operator.Helpers.Condition.{after_write, write_if, set_reconciled_condition, report}

module _ {W Spec : Type 0} (r : Reconciler W) (client : ResourceClient W Spec) where
  -- The outcome has an error if the caller gave one.
  abbrev HasError : Outcome × Resource Spec → W → Type 0
  HasError a _ = is_some a.0.error ≡ true

  after_write-HasError :
      (e : Error) (x : Resource Spec × Option Error)
      → is_some (after_write r client (some e) x).0.error ≡ true
  after_write-HasError e (o, none) = refl
  after_write-HasError e (o, some _) = refl

  write_if-HasError :
      (e : Error) (o : Resource Spec) (x : List Condition × Bool) (w : W)
      → Post HasError (write_if r client (some e) o x) w
  write_if-HasError e o (cs, true) w =
      Post-bind {P = λ _ _. Unit} _ _ w (Post-always _ w (λ a v. tt))
        (λ x v _. record { at = after_write-HasError e x })
  write_if-HasError e o (cs, false) w = record { at = refl }

  pub set_reconciled_condition-error :
      (o : Resource Spec) (type reason message : String) (e : Error) (w : W)
      → Post HasError (set_reconciled_condition r client o type reason message (some e)) w
  unfolding set_reconciled_condition
  set_reconciled_condition-error o type reason message e w = write_if-HasError e o _ w

  pub report-error :
      (o : Resource Spec) (reason message : String) (e : Error) (w : W)
      → Post (λ a _. is_some a.error ≡ true) (report r client o reason message (some e)) w
  unfolding report
  report-error o reason message e w =
      Post-bind {P = HasError} _ _ w
        (set_reconciled_condition-error o condition_reconciled reason message e w)
        (λ a v h. record { at = h })

  -- A report of an error that returns, returns an error, whether or not the condition could be
  -- written.
  pub report-keeps_error :
      (o : Resource Spec) (reason message : String) (e : Error) (w v : W) (a : Outcome)
      → report r client o reason message (some e) w ≡ (returned a, v)
      → is_some a.error ≡ true
  report-keeps_error o reason message e w v a run =
      Post-run _ w (report-error o reason message e w) a v run

  error-Sound : (G : W → Type 0) (a : Outcome) (w : W) → is_some a.error ≡ true → Sound G a w
  error-Sound G a w h none_there = absurd (false≢true (ap is_some (sym none_there) ∙ h))

  module _ {G : W → Type 0} where
    -- So nothing is claimed of the world behind a report of an error.
    pub report-Sound :
        (o : Resource Spec) (reason message : String) (e : Error) (w : W)
        → Post (Sound G) (report r client o reason message (some e)) w
    report-Sound o reason message e w =
        Post-weaken _ w (error-Sound G) (report-error o reason message e w)

  module _ {view : W → Backend} (k : IsReporting view client) where
    pub report-Leaves :
        (o : Resource Spec) (reason message : String) (e : Option Error)
        → Leaves view (report r client o reason message e)
    report-Leaves = report-Closed (Leaves-IsClosed view) r client k.update_status_lem
