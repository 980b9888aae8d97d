-- ===== src/Trust/Attempt.antt =====
-- The parts of an attempt in `TrustToolGateway.run` of trust_gateway.py: how its loop and its attempts
-- end.
use ci_failure_orchestrator.Common.{
  ℕ, String, Bool, false, List, [], ◌∷◌, ◌++◌, Option, none, some, length, leb, if◌then◌else◌,
  str_eq,
}
use ci_failure_orchestrator.Loops.{Step, Round, next, done, raised, ◌>>◌, raise}
use ci_failure_orchestrator.Trust.Machine.{
  GatewayState, retryable_failure, budget_exhausted, human_escalation, success, GatewayStateMachine,
  transition,
}
use ci_failure_orchestrator.Trust.Defs.{
  RepairProposal, PolicyResult, ToolExecutionResult, EvaluationResult, RetryBudget, remaining,
  AttemptRecord, Metric, tool_failure_count, retry_count, retry_exhaustion_count,
  human_escalation_count, verified_success_count, GatewayResult,
}

-- What the executor does in a workspace: a result, one of the exceptions that the gateway catches, or
-- another one.
pub data Execution (Workspace : Type 0) : Type 0 where
  executed : ToolExecutionResult → Workspace → Execution Workspace
  caught : Workspace → Execution Workspace
  escaped : Execution Workspace

-- The result for the exceptions that the gateway catches.
abbrev pub failed_execution : ToolExecutionResult
failed_execution = record { command_success = false; changed_files = [] }

abbrev pub outcome :
    {Workspace : Type 0} → Execution Workspace → Option (ToolExecutionResult × Workspace)
outcome (executed result w) = some (result, w)
outcome (caught w) = some (failed_execution, w)
outcome escaped = none

-- What a gateway is constructed with; `none` is an exception. The attempt's number stands for the time.
pub record Collaborators (Context Workspace : Type 0) : Type 0 where
  pub generate_tool_request : ℕ → Option EvaluationResult → Option RepairProposal
  pub fingerprint : RepairProposal → Option String
  pub build_context : RepairProposal → Bool → Option Context
  pub evaluate_policy : Context → Option PolicyResult
  -- Entering the copy of the workspace, and whether leaving it raises.
  pub isolate : ℕ → Option Workspace
  pub cleanup_raises : ℕ → Bool
  pub execute : RepairProposal → Workspace → Execution Workspace
  pub verify : RepairProposal → Workspace → Option EvaluationResult
  pub out_of_time : ℕ → Bool

-- The audit log: its events, and whether the append behind so many of them raises.
pub record AuditLog : Type 0 where
  pub events : List String
  pub raises : ℕ → Bool

-- The local variables of a run, and the gateway's budget, metrics and audit log.
pub record Gateway : Type 0 where
  pub state : GatewayStateMachine
  pub retry_budget : RetryBudget
  pub attempts : List AttemptRecord
  pub fingerprints : List String
  pub previous_evaluation : Option EvaluationResult
  pub last_policy : Option PolicyResult
  pub metrics : List Metric
  pub audit : AuditLog

pub data GatewayError : Type 0 where
  invalid_transition negative_cost from_collaborator from_audit from_isolation : GatewayError

-- A part of the loop's body.
abbrev pub Statement : Type 0
Statement = Round Gateway GatewayResult GatewayError

abbrev pub moved : Gateway → Option GatewayStateMachine → Step Gateway GatewayResult GatewayError
moved g none = raised invalid_transition
moved g (some m) = next (record g { state = m })

abbrev pub move : GatewayState → Statement
move target g = moved g (transition target g.state)

abbrev pub logged : String → AuditLog → AuditLog
logged event log = record log { events = log.events ++ event ∷ [] }

-- `self._event(...)`.
abbrev pub note : String → Statement
note event g =
    if g.audit.raises (length g.audit.events)
    then raised from_audit
    else next (record g { audit = logged event g.audit })

abbrev pub count : Metric → Statement
count metric g = next (record g { metrics = g.metrics ++ metric ∷ [] })

-- `return self._result(...)`.
abbrev pub finish : String → Option String → Statement
finish status escalation g =
    done
      (record {
        status = status;
        policy_decision = g.last_policy;
        attempts = g.attempts;
        state_history = g.state.history;
        escalation = escalation;
      })
      g

abbrev pub escalate : String → Statement
escalate reason = do
  move human_escalation
  count human_escalation_count
  note "human_escalation"
  finish "human_review_required" (some reason)

abbrev pub exhausted : String → Statement
exhausted reason = do
  move budget_exhausted
  move human_escalation
  count retry_exhaustion_count
  count human_escalation_count
  note "retry_budget_exhausted"
  note "human_escalation"
  finish "human_review_required" (some reason)

-- `self._attempt(...)`.
abbrev pub attempt_of :
    ℕ
    → RepairProposal
    → PolicyResult
    → EvaluationResult
    → Option EvaluationResult
    → RetryBudget
    → AttemptRecord
attempt_of n p policy evaluation verification b = record {
  attempt_number = n;
  proposal = p;
  policy = policy;
  evaluation = evaluation;
  verification = verification;
  remaining_budget = remaining b;
}

-- `attempts.append(...)`.
abbrev pub record_attempt :
    ℕ → RepairProposal → PolicyResult → EvaluationResult → Option EvaluationResult → Statement
record_attempt n p policy evaluation verification g =
    let a = attempt_of n p policy evaluation verification g.retry_budget in
    next (record g { attempts = g.attempts ++ a ∷ [] })

-- `verification or evaluation`.
abbrev pub last_of : EvaluationResult → Option EvaluationResult → EvaluationResult
last_of evaluation none = evaluation
last_of evaluation (some verification) = verification

abbrev pub reason_of : Option String → String
reason_of none = "verification failed"
reason_of (some reason) = if str_eq reason "" then "verification failed" else reason

abbrev pub failure_of : Option EvaluationResult → Option String
failure_of none = none
failure_of (some ev) = ev.failure_reason

-- The end of the loop's body, behind a failed attempt.
unfoldable pub after_failure : Statement
after_failure g =
    if leb g.retry_budget.max_attempts g.retry_budget.attempts
    then exhausted (reason_of (failure_of g.previous_evaluation)) g
    else (count retry_count >> note "retry_scheduled") g

unfoldable pub fail_attempt :
    ℕ → RepairProposal → PolicyResult → EvaluationResult → Option EvaluationResult → Statement
fail_attempt n p policy evaluation verification = do
  count tool_failure_count
  λ g. next (record g { previous_evaluation = some (last_of evaluation verification) })
  move retryable_failure
  record_attempt n p policy evaluation verification

-- The end of the `with` block.
abbrev pub leave :
    Bool → Step Gateway GatewayResult GatewayError → Step Gateway GatewayResult GatewayError
leave cleanup_raises s = if cleanup_raises then raised from_isolation else s

unfoldable pub succeed :
    ℕ → RepairProposal → PolicyResult → EvaluationResult → EvaluationResult → Statement
succeed n p policy evaluation verification = do
  move success
  count verified_success_count
  record_attempt n p policy evaluation (some verification)
  note "workflow_completed"
  finish "verified_success" none

-- Behind `self.verifier.verify(...)`.
unfoldable pub after_verification :
    ℕ → RepairProposal → PolicyResult → EvaluationResult → Option EvaluationResult → Statement
after_verification n p policy evaluation none = raise from_collaborator
after_verification n p policy evaluation (some verification) = do
  note "verification_result"
  if verification.success
      then succeed n p policy evaluation verification
      else fail_attempt n p policy evaluation (some verification)
