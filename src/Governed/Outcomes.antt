-- ===== src/Governed/Outcomes.antt =====
-- The state of GovernedAgentPipeline.run (ci_failure_orchestrator/governed/pipeline.py) and the branches that
-- end a round of its loop. The events of the audit log and the counters are lists; the store does not
-- fail. `none` is an exception of a collaborator.
use ci_failure_orchestrator.Common.{
  ℕ, String, Bool, true, false, not, List, [], ◌∷◌, ◌++◌, map, Option, none, some, if◌then◌else◌,
  when,
}
use ci_failure_orchestrator.Lifecycle
use ci_failure_orchestrator.Lifecycle.{Machine}
use ci_failure_orchestrator.Loops.{Step, Round, next, done, raised, ◌>>◌, raise}
use ci_failure_orchestrator.Governed.States.{
  PipelineState, evaluating, retrying, policy_review, awaiting_human, approved, verifying,
  succeeded, failed, is, allowed,
}
use ci_failure_orchestrator.Governed.Defs.{
  FailureEvent, FailureClassification, RepairPlan, RepairProposal, SandboxResult, EvaluationResult,
  PolicyOutcome, approve, reject, escalate, retry, PolicyDecision, listed,
}
use ci_failure_orchestrator.Governed.Retry.{RetryBudget, RetryDecision, decide}

pub data Metric : Type 0 where
  agent_runs_total agent_runs_success_total agent_runs_escalated_total repair_attempts_total
        tool_call_failures sandbox_failures evaluation_failures policy_rejection_total :
      Metric

-- The parts of `why` in `build_escalation` (governed/escalation.py).
pub data EscalationReason : Type 0 where
  by_policy : PolicyDecision → EscalationReason
  by_class : String → EscalationReason
  evaluation_not_passed explicit_escalation_requested : EscalationReason

pub record HumanEscalation : Type 0 where
  pub why : List EscalationReason
  pub attempted_repairs : List String

pub record PipelineResult : Type 0 where
  pub state : PipelineState
  pub classification : FailureClassification
  pub plan : Option RepairPlan
  pub proposal : Option RepairProposal
  pub evaluation : Option EvaluationResult
  pub policy : Option PolicyDecision
  pub escalation : Option HumanEscalation
  pub verification : Option (List String)
  pub attempts : ℕ

-- What a pipeline is constructed with. The number of an attempt stands for the time of a call.
pub record Collaborators (Context : Type 0) : Type 0 where
  pub build_context : FailureEvent → Option Context
  pub classify : FailureEvent → Option FailureClassification
  pub plan : ℕ → Context → FailureClassification → Option RepairPlan
  -- Of a tool: whether it is registered, whether its handler returns, and whether it is too slow.
  pub registered : String → Bool
  pub handler_returns : ℕ → String → Bool
  pub too_slow : ℕ → String → Bool
  pub propose_repair : ℕ → Context → RepairPlan → Option RepairProposal
  pub sandbox : ℕ → RepairProposal → Option SandboxResult
  pub evaluate : RepairProposal → SandboxResult → Bool → Option EvaluationResult
  pub policy :
      RepairProposal
      → FailureClassification
      → EvaluationResult
      → List String
      → Option PolicyDecision
  pub sha256 : String → String

-- The local variables of a run, and the pipeline's budget, metrics, events and last saved state.
pub record Pipeline : Type 0 where
  pub machine : Machine PipelineState
  pub retry_budget : RetryBudget
  pub attempts : List (String × Bool)
  pub tool_names : List String
  pub policy_decision : Option PolicyDecision
  pub metrics : List Metric
  pub audit : List String
  pub saved : Option (PipelineState × Bool)

pub data PipelineError : Type 0 where
  illegal_transition unknown_tool from_collaborator : PipelineError

-- A part of the method.
abbrev pub Statement : Type 0
Statement = Round Pipeline PipelineResult PipelineError

abbrev pub moved :
    Pipeline → Option (Machine PipelineState) → Step Pipeline PipelineResult PipelineError
moved p none = raised illegal_transition
moved p (some m) = next (record p { machine = m })

abbrev pub move : PipelineState → String → Statement
move to reason p = moved p (Lifecycle.transition allowed p.machine to reason)

abbrev pub note : String → Statement
note event p = next (record p { audit = p.audit ++ event ∷ [] })

abbrev pub count : Metric → Statement
count metric p = next (record p { metrics = p.metrics ++ metric ∷ [] })

abbrev pub count_if : Bool → Metric → Statement
count_if b metric p = next (record p { metrics = p.metrics ++ when b metric })

-- `self._finish(...)`.
abbrev pub finish : Bool → Statement
finish escalated p = next (record p {
  saved = some (p.machine.status, escalated);
  audit = p.audit ++ "RUN_COMPLETED" ∷ [];
})

abbrev pub policy_part : Option PolicyDecision → List EscalationReason
policy_part none = []
policy_part (some d) = by_policy d ∷ []

abbrev pub failed_part : Option EvaluationResult → Bool
failed_part none = false
failed_part (some ev) = not ev.passed

abbrev pub or_explicit : List EscalationReason → List EscalationReason
or_explicit [] = explicit_escalation_requested ∷ []
or_explicit (r ∷ rs) = r ∷ rs

-- `build_escalation`.
unfoldable pub build_escalation :
    FailureClassification
    → Option EvaluationResult
    → Option PolicyDecision
    → List (String × Bool)
    → HumanEscalation
build_escalation k ev policy attempts = record {
  why = or_explicit (
      policy_part policy
      ++ when
          (listed k.failure_class ("unknown" ∷ "infrastructure_failure" ∷ "network_failure" ∷ []))
          (by_class k.failure_class)
      ++ when (failed_part ev) evaluation_not_passed);
  attempted_repairs = map (λ a. a.0) attempts;
}

-- What a round has found.
pub record Attempt : Type 0 where
  pub plan : RepairPlan
  pub proposal : RepairProposal
  pub evaluation : EvaluationResult

abbrev pub result :
    FailureClassification → Attempt → Option HumanEscalation → Option (List String) → Statement
result k a escalation verification p =
    done
      (record {
        state = p.machine.status;
        classification = k;
        plan = some a.plan;
        proposal = some a.proposal;
        evaluation = some a.evaluation;
        policy = p.policy_decision;
        escalation = escalation;
        verification = verification;
        attempts = p.retry_budget.attempts_used;
      })
      p

-- The branches that hand the run to people.
abbrev pub escalate_to_human : String → FailureClassification → Attempt → Statement
escalate_to_human reason k a = do
  move awaiting_human reason
  λ p.
      (do
        count agent_runs_escalated_total
        finish true
        result k a (some (build_escalation k (some a.evaluation) p.policy_decision p.attempts))
            none)
        p

-- The end of the loop's body: `retry_budget.decide(...)` and what follows from it.
unfoldable pub after_decision : FailureClassification → Attempt → RetryDecision → Statement
after_decision k a d =
    if d.should_retry
    then (do
      note "RETRY_APPROVED"
      λ p.
          if is p.machine.status policy_review
          then move retrying d.reason p
          else if is p.machine.status evaluating
          then move retrying d.reason p
          else next p)
    else escalate_to_human d.reason k a

unfoldable pub decide_retry : FailureClassification → Attempt → Statement
decide_retry k a p =
    after_decision k a (decide false false false (some a.evaluation) true p.retry_budget) p

-- The branches on a policy decision.
unfoldable pub by_outcome : FailureClassification → Attempt → PolicyOutcome → Statement
by_outcome k a approve = do
  note "POLICY_APPROVED"
  move approved "policy_approve"
  move verifying "verify"
  note "VERIFICATION_COMPLETED"
  move succeeded "success"
  count agent_runs_success_total
  finish false
  result k a none (some a.plan.expected_verification)
by_outcome k a escalate = do note "POLICY_ESCALATED"; escalate_to_human "policy_escalate" k a
by_outcome k a reject = do
  count policy_rejection_total
  move failed "policy_reject"
  finish false
  result k a none none
by_outcome k a retry = decide_retry k a

unfoldable pub after_policy : FailureClassification → Attempt → Option PolicyDecision → Statement
after_policy k a none = raise from_collaborator
after_policy k a (some d) = do
  λ p. next (record p { policy_decision = some d })
  by_outcome k a d.outcome
