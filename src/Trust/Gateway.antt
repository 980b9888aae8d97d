-- ===== src/Trust/Gateway.antt =====
-- `TrustToolGateway.run` of trust_gateway.py.
use ci_failure_orchestrator.Common.{
  ℕ, ◌+◌, ◌-◌, suc, String, Bool, ◌&&◌, ◌||◌, List, [], ◌∷◌, Option, none, some, any, length, ltb,
  if◌then◌else◌, str_eq, codes, ends_with,
}
use ci_failure_orchestrator.Loops.{Run, loop, next, raised, raise, ◌>>◌}
use ci_failure_orchestrator.Trust.Machine.{
  proposed, context_ready, policy_evaluated, approval_pending, denied, sandbox_ready, executing,
  evaluating, verifying, new_machine,
}
use ci_failure_orchestrator.Trust.Defs.{
  RepairProposal, TrustDecision, allow, deny, require_approval, PolicyResult, ToolExecutionResult,
  RetryBudget, consume, evaluate, missing, Metric, policy_allow_count, policy_deny_count,
  approval_required_count, tool_execution_count, GatewayResult,
}
use ci_failure_orchestrator.Trust.Attempt.{
  AuditLog, logged, from_audit, from_isolation, leave, after_failure, failed_execution, Statement,
  Collaborators, Execution, Gateway, GatewayError, after_verification, caught, count, escalate,
  escaped, executed, exhausted, fail_attempt, finish, from_collaborator, move, negative_cost, note,
}

module _ {Context Workspace : Type 0} (parts : Collaborators Context Workspace) where
  -- Behind the execution, with its result.
  unfoldable pub after_execution :
      ℕ → RepairProposal → PolicyResult → ToolExecutionResult → Workspace → Statement
  after_execution n p policy result workspace =
      let evaluation = evaluate p result in
      do
        count tool_execution_count
        note "sandbox_execution"
        move evaluating
        note "evaluation_result"
        if evaluation.success
            then move verifying
              >> after_verification n p policy evaluation (parts.verify p workspace)
            else fail_attempt n p policy evaluation none

  unfoldable pub execute_in : ℕ → RepairProposal → PolicyResult → Execution Workspace → Statement
  execute_in n p policy (executed result workspace) = after_execution n p policy result workspace
  execute_in n p policy (caught workspace) = after_execution n p policy failed_execution workspace
  execute_in n p policy escaped = raise from_collaborator

  -- The `with` block on an isolated copy of the workspace.
  unfoldable pub in_sandbox : ℕ → RepairProposal → PolicyResult → Option Workspace → Statement
  in_sandbox n p policy none g = raised from_isolation
  in_sandbox n p policy (some workspace) g =
      leave (parts.cleanup_raises n)
        ((move executing >> execute_in n p policy (parts.execute p workspace)) g)

  -- Behind `self.retry_budget.consume(...)`.
  unfoldable pub after_budget :
      ℕ → RepairProposal → PolicyResult → Option (Bool × RetryBudget) → Statement
  after_budget n p policy none = raise negative_cost
  after_budget n p policy (some (ok, b)) =
      if ok
      then (λ g. next (record g { retry_budget = b }))
        >> move sandbox_ready
        >> in_sandbox n p policy (parts.isolate n)
        >> after_failure
      else exhausted "retry budget exhausted before execution"

  unfoldable pub approved_by : Bool → PolicyResult → Statement
  approved_by human_approved policy g =
      if human_approved && ends_with (codes "_APPROVED") (codes policy.rule_id)
      then note "approval_received" g
      else next g

  unfoldable pub by_decision : Bool → ℕ → RepairProposal → PolicyResult → TrustDecision → Statement
  by_decision human_approved n p policy deny = do
    move denied
    count policy_deny_count
    finish "denied" none
  by_decision human_approved n p policy require_approval = do
    move approval_pending
    count approval_required_count
    note "approval_requested"
    finish "approval_required" none
  by_decision human_approved n p policy allow = do
    count policy_allow_count
    approved_by human_approved policy
    λ g. after_budget n p policy (consume (parts.out_of_time n) p.estimated_cost g.retry_budget) g

  -- Behind `self.policy.evaluate(context)`.
  unfoldable pub after_policy : Bool → ℕ → RepairProposal → Option PolicyResult → Statement
  after_policy human_approved n p none = raise from_collaborator
  after_policy human_approved n p (some policy) = do
    λ g. next (record g { last_policy = some policy })
    move policy_evaluated
    note "policy_decision"
    by_decision human_approved n p policy policy.decision

  -- Behind `self.context_builder.build(...)`.
  unfoldable pub after_context : Bool → ℕ → RepairProposal → Option Context → Statement
  after_context human_approved n p none = raise from_collaborator
  after_context human_approved n p (some context) = do
    move context_ready
    note "context_created"
    note "network_probe"
    after_policy human_approved n p (parts.evaluate_policy context)

  -- The test for a repeated action, with `proposal.fingerprint()`.
  unfoldable pub check_fingerprint : Bool → ℕ → RepairProposal → Option String → Statement
  check_fingerprint human_approved n p none g = raised from_collaborator
  check_fingerprint human_approved n p (some fingerprint) g =
      if any (str_eq fingerprint) g.fingerprints
      then escalate "identical failing action proposed without new evidence" g
      else after_context human_approved n p (parts.build_context p human_approved)
          (record g { fingerprints = fingerprint ∷ g.fingerprints })

  -- The tests on a proposal.
  unfoldable pub check_proposal : Bool → ℕ → RepairProposal → Statement
  check_proposal human_approved n p g =
      if ltb 1 n && (missing p.reason_for_retry || missing p.changed_assumption)
      then escalate "retry proposal lacks failure rationale or changed assumption" g
      else check_fingerprint human_approved n p (parts.fingerprint p) g

  -- Behind `self.llm.generate_tool_request(...)`.
  unfoldable pub after_request : Bool → ℕ → Option RepairProposal → Statement
  after_request human_approved n none = raise from_collaborator
  after_request human_approved n (some p) = do
    move proposed
    note "llm_proposal"
    check_proposal human_approved n p

  -- The body of `while True`.
  unfoldable pub round : Bool → Statement
  round human_approved g =
      let n = g.retry_budget.attempts + 1 in
      after_request human_approved n (parts.generate_tool_request n g.previous_evaluation) g

abbrev pub initial : RetryBudget → List Metric → AuditLog → Gateway
initial b metrics audit = record {
  state = new_machine;
  retry_budget = b;
  attempts = [];
  fingerprints = [];
  previous_evaluation = none;
  last_policy = none;
  metrics = metrics;
  audit = logged "request_received" audit;
}

-- `TrustToolGateway.run`; the fuel is one round more than the budget has attempts left.
unfoldable pub run :
    {Context Workspace : Type 0}
    → Collaborators Context Workspace
    → Bool
    → RetryBudget
    → List Metric
    → AuditLog
    → Run Gateway GatewayResult GatewayError
run parts human_approved b metrics audit =
    if audit.raises (length audit.events)
    then Run.failed from_audit
    else loop (round parts human_approved) (suc (b.max_attempts - b.attempts))
        (initial b metrics audit)
