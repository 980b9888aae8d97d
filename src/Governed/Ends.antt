-- ===== src/Governed/Ends.antt =====
-- How a run of the governed pipeline ends (ci_failure_orchestrator/governed/pipeline.py).
use ci_failure_orchestrator.Common.{◌≤◌, String, true, List, Option, none, some, ◌≡◌, refl}
use ci_failure_orchestrator.Lifecycle.{transition}
use ci_failure_orchestrator.Loops.{Run, looped, Ends-stops, Ends-Returns, stops, Returns}
use ci_failure_orchestrator.Governed.States.{received, context_ready}
use ci_failure_orchestrator.Governed.Defs.{FailureEvent, FailureClassification}
use ci_failure_orchestrator.Governed.Retry.{RetryBudget}
use ci_failure_orchestrator.Governed.Outcomes.{
  PipelineResult, Pipeline, PipelineError, Metric, Collaborators,
}
use ci_failure_orchestrator.Governed.Pipeline.{
  failure_fingerprint, classified_as, repair_loop, after_classification, after_context, run,
}
use ci_failure_orchestrator.Governed.Accounts.{expected_error}
use ci_failure_orchestrator.Governed.Endings.{Accounts, Ready, left}
use ci_failure_orchestrator.Governed.Rounds.{Judged, classified_as-Closed}

module _ {Context : Type 0} (parts : Collaborators Context) (e : FailureEvent) (b : RetryBudget)
    (positive : 1 ≤ b.repeated_failure_limit) where
  abbrev Sound : Run Pipeline PipelineResult PipelineError → Type 0
  Sound r = (stops expected_error r ≡ true) × Returns (Accounts b (Judged parts)) r

  after_classification-Sound :
      (c : Context) (k : Option FailureClassification) (p : Pipeline)
      → p.machine.status ≡ context_ready
      → p.retry_budget ≡ b
      → Sound (after_classification parts e c k p)
  unfolding after_classification
  after_classification-Sound c none p st same = (refl, tt)
  after_classification-Sound c (some k) p st same =
      let closed = classified_as-Closed b positive parts e k c p st same in
      let mark = failure_fingerprint parts e k in
      let r = looped (repair_loop parts e c k) (classified_as parts e k p) in
      (
        Ends-stops (Ready b (Judged parts) mark) (left b (Judged parts) mark)
            (Accounts b (Judged parts)) expected_error r closed,
        Ends-Returns (Ready b (Judged parts) mark) (left b (Judged parts) mark)
            (Accounts b (Judged parts)) expected_error r closed,
      )

  after_context-Sound :
      (c : Option Context) (p : Pipeline)
      → p.machine.status ≡ received
      → p.retry_budget ≡ b
      → Sound (after_context parts e c p)
  unfolding after_context transition
  after_context-Sound none p st same = (refl, tt)
  after_context-Sound (some c) p st same =
      rw st (after_classification-Sound c (parts.classify e) _ refl same)

  -- A run of the governed pipeline ends, within as many rounds as its budget has attempts left and one
  -- more, for any collaborators if the limit of repeated failures is not 0: it returns a result or
  -- raises, and what it raises is an exception of a collaborator or the KeyError of an unknown tool,
  -- never IllegalTransitionError.
  pub pipeline_stops :
      (metrics : List Metric) (audit : List String)
      → stops expected_error (run parts e b metrics audit) ≡ true
  unfolding run
  pipeline_stops metrics audit = (after_context-Sound (parts.build_context e) _ refl refl).0

  -- A result of the governed pipeline, for any collaborators if the limit of repeated failures is not 0,
  -- is SUCCEEDED exactly if the policy approved and the evaluation passed, and otherwise FAILED or
  -- AWAITING_HUMAN, with an escalation exactly in the last case. A success rests on a proposal that the
  -- sandbox ran, the evaluation of what it returned and the decision of the policy on both. The saved
  -- state is that of the result. A run makes no more attempts than the limit of repeated failures,
  -- whatever its budget allows.
  pub pipeline-Accounts :
      (metrics : List Metric) (audit : List String)
      → Returns (Accounts b (Judged parts)) (run parts e b metrics audit)
  unfolding run
  pipeline-Accounts metrics audit = (after_context-Sound (parts.build_context e) _ refl refl).1
