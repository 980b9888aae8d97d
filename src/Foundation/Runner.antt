-- ===== src/Foundation/Runner.antt =====
-- The repair loop: `AgentExecutionFoundation.run` of ci_failure_orchestrator/foundation/runner.py and
-- `_run_policy_gate` of foundation/policy_gate.py, without a journal (no artifacts root is given). The
-- planner, the tools, the proposal factory, the sandbox and the escalation builder are handed to the
-- runner, and are parameters here; each may raise.
pub mod Ends
pub mod Prepared
pub mod Approval
pub mod Verdicts
pub mod Statuses
use ci_failure_orchestrator.Common.{
  ℕ, zero, suc, ◌+◌, String, Bool, true, false, not, List, [], ◌∷◌, ◌++◌, Option, none, some,
  length, last?, ◌==◌, if◌then◌else◌,
}
use ci_failure_orchestrator.Lifecycle.{Machine, initial}
use ci_failure_orchestrator.Foundation.Models.{
  ToolRiskLevel, FailureClassification, RepairProposal, SandboxResult, EvaluationResult,
}
use ci_failure_orchestrator.Foundation.StateMachine.{
  RunStatus, transition, allowed, received, context_ready, classified, planned, executing,
  proposal_ready, sandbox_running, evaluating, evaluated, retry_decision, retrying, policy_review,
  approved, rejected, escalated, escalation_building, awaiting_human, escalation_error, failed, is,
}
use ci_failure_orchestrator.Foundation.Evaluator.{evaluate}
use ci_failure_orchestrator.Foundation.Retry.{
  RetryBudget, AttemptRecord, RetryDecision, RetryReason, decide, success, max_attempts_exhausted,
  unrecoverable_failure,
}
use ci_failure_orchestrator.Foundation.Retry.Attempt.{build_attempt_record}
use ci_failure_orchestrator.Foundation.Policy.Defs.{
  PolicyConfig, PolicyDecision, PolicyOutcome, IntegrityFinding, approve, reject, escalate,
}
use ci_failure_orchestrator.Foundation.Policy.Context.{build_policy_context}
use ci_failure_orchestrator.Foundation.Policy.Engine as Policy

-- What the runner is constructed with; `none` is an exception. `fingerprints` are those of a proposal
-- and of a failure, `analyze_patch` is the patch analysis of the policy gate.
pub record Runner (Plan : Type 0) : Type 0 where
  -- Whether the context builder and the classifier return.
  pub build_context : ℕ → List AttemptRecord → Option {0} Unit
  pub classify : Option {0} Unit
  pub plan : ℕ → List AttemptRecord → Option Plan
  pub run_tools : ℕ → Plan → Option (List ToolRiskLevel)
  pub propose : ℕ → Plan → Option RepairProposal
  pub execute : ℕ → RepairProposal → Option SandboxResult
  pub fingerprints : RepairProposal → EvaluationResult → SandboxResult → String × String
  pub builds_escalation : PolicyDecision → RepairProposal → Bool
  pub analyze_patch : String → Option (List IntegrityFinding)
  pub classification : FailureClassification
  pub retry_budget : RetryBudget
  pub policy_config : PolicyConfig

-- The state machine and what `RunState` holds of a run.
pub record RunState : Type 0 where
  pub machine : Machine RunStatus
  pub status : RunStatus
  pub attempts : List AttemptRecord
  pub decisions : List RetryDecision
  pub tool_risks : List ToolRiskLevel
  pub proposal : Option RepairProposal
  pub evaluation : Option EvaluationResult
  pub policy_decision : Option PolicyDecision
  pub workflow_status : Option RunStatus

abbrev pub start : RunState
start = record {
  machine = initial received;
  status = received;
  attempts = [];
  decisions = [];
  tool_risks = [];
  proposal = none;
  evaluation = none;
  policy_decision = none;
  workflow_status = none;
}

pub record FoundationResult : Type 0 where
  pub run : RunState
  pub stop_reason : RetryReason
  pub technical_pass : Bool
  pub decided : Option PolicyDecision

-- An exception is the state machine's `InvalidStateTransition`, or one of what the runner calls.
pub data Cause : Type 0 where
  illegal_transition failed_call : Cause

-- A block of the `try` statement ends with a value or an exception, and in a state.
pub data Run (A : Type 0) : Type 0 where
  ok : A → RunState → Run A
  raised : Cause → RunState → Run A

abbrev pub M : Type 0 → Type 0
M A = RunState → Run A

infixl 5 ◌>>=◌ ◌>>◌
abbrev pub ◌>>=◌ : {A B : Type 0} → M A → (A → M B) → M B
◌>>=◌ m f s = elim (m s) [ ok a s' ↦ f a s' | raised c s' ↦ raised c s' ]

abbrev pub ◌>>◌ : {A B : Type 0} → M A → M B → M B
m >> k = m >>= λ _. k

abbrev pub pure : {A : Type 0} → A → M A
pure a s = ok a s

abbrev pub calls : {A : Type 0} → Option A → M A
calls none s = raised failed_call s
calls (some a) s = ok a s

abbrev pub modify : (RunState → RunState) → M Bool
modify f s = ok true (f s)

-- `sm.transition(to, reason)` and `state.status = sm.status`.
unfoldable pub move : RunStatus → String → M Bool
move to reason s = elim (transition s.machine to reason) [
  | none ↦ raised illegal_transition s
  | some m ↦ ok true (record s { machine = m; status = m.status })
]

abbrev pub result : RetryReason → Bool → Option PolicyDecision → RunState → FoundationResult
result reason pass decision s = record {
  run = s;
  stop_reason = reason;
  technical_pass = pass;
  decided = decision;
}

module _ {Plan : Type 0} (w : Runner Plan) where
  abbrev finish : RunStatus → PolicyDecision → M FoundationResult
  finish status decision s =
      ok (result success true (some decision) (record s { workflow_status = some status }))
        (record s { workflow_status = some status })

  -- The escalation of `_run_policy_gate`, whose exceptions end in ESCALATION_ERROR.
  unfoldable pub build_package : PolicyDecision → RepairProposal → M FoundationResult
  build_package decision proposal = do
    _ ← move escalation_building "build_package"
    elim (w.builds_escalation decision proposal) [
      | true ↦ move awaiting_human "escalation_id" >> finish awaiting_human decision
      | false ↦ move escalation_error "escalation_failed" >> finish escalation_error decision
    ]

  -- The end of `_run_policy_gate`, by the outcome.
  unfoldable pub conclude : PolicyOutcome → PolicyDecision → RepairProposal → M FoundationResult
  unfolding build_package
  conclude approve decision proposal = move approved "approve" >> finish approved decision
  conclude reject decision proposal = move rejected "reject" >> finish rejected decision
  conclude escalate decision proposal = move escalated "escalate" >> build_package decision proposal

  -- The decision that `_run_policy_gate` asks the policy engine for.
  abbrev pub decision_for :
      RepairProposal → EvaluationResult → List ToolRiskLevel → ℕ → PolicyDecision
  decision_for proposal ev tools attempts =
      Policy.evaluate w.analyze_patch w.policy_config
        (build_policy_context w.policy_config proposal ev (some w.classification) tools attempts)

  -- `_run_policy_gate`.
  unfoldable pub run_policy_gate : RepairProposal → EvaluationResult → M FoundationResult
  unfolding conclude
  run_policy_gate proposal ev = do
    _ ← move policy_review "evaluation_pass"
    decision ← λ s. ok (decision_for proposal ev s.tool_risks (length s.attempts)) s
    _ ← modify (λ s. record s { policy_decision = some decision })
    conclude decision.outcome decision proposal

  -- The moves with which an attempt begins.
  unfoldable pub open_attempt : ℕ → M Bool
  open_attempt n = do
    _ ← λ s. calls (w.build_context n s.attempts) s
    if n == 1
        then move context_ready "context_built"
          >> (calls w.classify >> move classified w.classification.category)
        else pure true

  unfoldable pub replan : ℕ → M Bool
  replan n s =
      if n == 1
      then move planned "plan_created" s
      else if is s.machine.status retrying
      then move planned "replan" s
      else pure true s

  -- An attempt up to EVALUATED: the proposal, the result of the sandbox and the evaluation.
  unfoldable pub prepare : ℕ → M (RepairProposal × SandboxResult × EvaluationResult)
  unfolding open_attempt replan
  prepare n = do
    _ ← open_attempt n
    plan ← λ s. calls (w.plan n s.attempts) s
    _ ← replan n
    _ ← move executing "tools"
    tools ← calls (w.run_tools n plan)
    _ ← modify (λ s. record s { tool_risks = tools })
    proposal ← calls (w.propose n plan)
    _ ← move proposal_ready "proposal_created"
    _ ← modify (λ s. record s { proposal = some proposal })
    _ ← move sandbox_running "sandbox"
    sandbox ← calls (w.execute n proposal)
    _ ← move evaluating "evaluate"
    ev ← calls (evaluate proposal sandbox)
    _ ← move evaluated "evaluated"
    _ ← modify (λ s. record s { evaluation = some ev })
    pure (proposal, sandbox, ev)

  -- The record of an attempt.
  unfoldable pub record_attempt : ℕ → RepairProposal → SandboxResult → EvaluationResult → M Bool
  record_attempt n proposal sandbox ev s =
      let (proposal_fp, failure_fp) = w.fingerprints proposal ev sandbox in
      let attempt = build_attempt_record n proposal_fp failure_fp ev sandbox (last? s.attempts) in
      ok true (record s { attempts = s.attempts ++ attempt ∷ [] })

  -- The retry decision behind a failed evaluation; `none` goes on with the next attempt.
  unfoldable pub decide_retry : EvaluationResult → M (Option FoundationResult)
  decide_retry ev = do
    _ ← move retry_decision "evaluation_fail"
    decision ← λ s. ok (decide w.retry_budget s.attempts ev) s
    _ ← modify (λ s. record s { decisions = s.decisions ++ decision ∷ [] })
    elim decision.should_retry [
      | true ↦ move retrying "retry" >> pure none
      | false ↦ move failed "stop" >> (λ s. ok (some (result decision.reason false none s)) s)
    ]

  -- `if evaluation.passed`.
  unfoldable pub judge : Bool → RepairProposal → EvaluationResult → M (Option FoundationResult)
  unfolding run_policy_gate decide_retry
  judge true proposal ev = run_policy_gate proposal ev >>= λ r. pure (some r)
  judge false proposal ev = decide_retry ev

  -- The body of the loop; `some` is what it returns.
  unfoldable pub attempt : ℕ → M (Option FoundationResult)
  unfolding prepare record_attempt judge
  attempt n = do
    (proposal, sandbox, ev) ← prepare n
    _ ← record_attempt n proposal sandbox ev
    judge ev.passed proposal ev

  -- The transition to FAILED, if it is allowed, at the two ends where `state.status` is FAILED anyway.
  abbrev close : String → RunState → RunState
  close reason s =
      let final : Machine RunStatus = elim (transition s.machine failed reason) [
        | none ↦ s.machine
        | some m ↦ m
      ] in
      record s { machine = final; status = failed }

  -- The end behind the loop.
  unfoldable pub exhausted : M FoundationResult
  exhausted s =
      let ended = close "max_attempts_exhausted" s in
      ok (result max_attempts_exhausted false none ended) ended

  -- The loop: `left` attempts from the attempt `n` on.
  unfoldable pub loop : ℕ → ℕ → M FoundationResult
  unfolding attempt exhausted
  loop zero n = exhausted
  loop (suc left) n = do
    outcome ← attempt n
    elim outcome [ some r ↦ pure r | none ↦ loop left (n + 1) ]

  -- The handler of exceptions.
  unfoldable pub crashed : RunState → FoundationResult
  crashed s = result unrecoverable_failure false none (close "error" s)

  -- `run`.
  unfoldable pub run : FoundationResult
  unfolding loop crashed
  run = elim (loop w.retry_budget.max_attempts 1 start) [ ok r s ↦ r | raised c s ↦ crashed s ]
