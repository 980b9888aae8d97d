-- ===== src/Governed/Pipeline.antt =====
-- GovernedAgentPipeline.run of ci_failure_orchestrator/governed/pipeline.py.
use ci_failure_orchestrator.Common.{
  ℕ, ◌-◌, suc, String, Bool, true, false, not, ◌&&◌, List, [], ◌∷◌, ◌++◌, Option, none, some,
  if◌then◌else◌, str_eq, str_append,
}
use ci_failure_orchestrator.Lifecycle
use ci_failure_orchestrator.Loops.{Run, looped, next, done, ◌>>◌, raise, loop}
use ci_failure_orchestrator.Governed.States.{
  received, context_ready, classified, planned, executing, evaluating, policy_review,
  awaiting_human,
}
use ci_failure_orchestrator.Governed.Defs.{
  FailureEvent, FailureClassification, RepairPlan, RepairProposal, SandboxResult, EvaluationResult,
  sandbox_execute, local_evaluate, policy_evaluate, default_config,
}
use ci_failure_orchestrator.Governed.Retry.{RetryBudget, record_attempt}
use ci_failure_orchestrator.Governed.Outcomes.{
  Metric, agent_runs_total, agent_runs_escalated_total, repair_attempts_total, tool_call_failures,
  sandbox_failures, evaluation_failures, PipelineResult, Collaborators, Pipeline, PipelineError,
  unknown_tool, from_collaborator, Statement, Attempt, move, note, count, count_if, finish,
  build_escalation, decide_retry, after_policy,
}

-- The defaults of the constructor for the sandbox, the evaluator and the policy.
abbrev pub with_defaults :
    {Context : Type 0} → (ℕ → Bool) → Collaborators Context → Collaborators Context
with_defaults late parts = record parts {
  sandbox = λ n p. some (sandbox_execute (late n) p);
  evaluate = λ p s target. some (local_evaluate p s target);
  policy = λ p k ev tools. some (policy_evaluate default_config p k ev tools);
}

module _ {Context : Type 0} (parts : Collaborators Context) (e : FailureEvent) where
  -- `self.registry.invoke(...)` of `ToolRegistry` (governed/tools.py) and its events, for each step.
  unfoldable pub invoke_tools : ℕ → List String → Statement
  invoke_tools n [] p = next p
  invoke_tools n (tool ∷ rest) p =
      let later = invoke_tools n rest in
      if parts.registered tool
      then ((λ p. next (record p { tool_names = p.tool_names ++ tool ∷ [] }))
            >> note "TOOL_CALLED"
            >> note "TOOL_COMPLETED"
            >> count_if (not (parts.handler_returns n tool && not (parts.too_slow n tool)))
                tool_call_failures
            >> later)
          p
      else raise unknown_tool p

  -- The fingerprint of the failure, which does not depend on the attempt.
  abbrev pub failure_fingerprint : FailureClassification → String
  failure_fingerprint k = parts.sha256 (str_append k.failure_class (str_append ":" e.message))

  -- `retry_budget.record_attempt(...)` and `state["attempts"].append(...)`.
  abbrev pub save_attempt : FailureClassification → RepairProposal → EvaluationResult → Statement
  save_attempt k proposal ev p = next (record p {
    retry_budget =
        record_attempt (failure_fingerprint k) (parts.sha256 proposal.proposed_patch)
          p.retry_budget;
    metrics = p.metrics ++ repair_attempts_total ∷ [];
    attempts = p.attempts ++ (proposal.proposal_id, ev.passed) ∷ [];
  })

  -- Behind `self.evaluator.evaluate(...)`.
  unfoldable pub after_evaluation :
      FailureClassification → RepairPlan → RepairProposal → Option EvaluationResult → Statement
  after_evaluation k plan proposal none = raise from_collaborator
  after_evaluation k plan proposal (some ev) =
      let a : Attempt = record { plan = plan; proposal = proposal; evaluation = ev } in
      do
        note "EVALUATION_COMPLETED"
        count_if (not ev.passed) evaluation_failures
        save_attempt k proposal ev
        if ev.passed
            then move policy_review "eval_pass"
              >> (λ p. after_policy k a (parts.policy proposal k ev p.tool_names) p)
            else decide_retry k a

  -- Behind `self.sandbox.execute(...)`; `target_pass` is True.
  unfoldable pub after_sandbox :
      FailureClassification → RepairPlan → RepairProposal → Option SandboxResult → Statement
  after_sandbox k plan proposal none = raise from_collaborator
  after_sandbox k plan proposal (some s) = do
    count_if (not s.applied) sandbox_failures
    move evaluating "evaluate"
    after_evaluation k plan proposal (parts.evaluate proposal s true)

  -- Behind `self.model.propose_repair(...)`.
  unfoldable pub after_proposal :
      ℕ → FailureClassification → RepairPlan → Option RepairProposal → Statement
  after_proposal n k plan none = raise from_collaborator
  after_proposal n k plan (some proposal) = do
    note "PROPOSAL_CREATED"
    note "SANDBOX_STARTED"
    after_sandbox k plan proposal (parts.sandbox n proposal)

  -- Behind `self.planner.plan(...)`.
  unfoldable pub after_plan : ℕ → Context → FailureClassification → Option RepairPlan → Statement
  after_plan n c k none = raise from_collaborator
  after_plan n c k (some plan) = do
    move planned "plan_created"
    note "PLAN_CREATED"
    move executing "tools"
    invoke_tools n plan.tools
    after_proposal n k plan (parts.propose_repair n c plan)

  -- The body of `while True`.
  unfoldable pub round : Context → FailureClassification → Statement
  round c k p = let n = p.retry_budget.attempts_used in after_plan n c k (parts.plan n c k) p

  -- The branch on `recommended_next_action`, which needs no plan.
  abbrev pub escalate_at_once : FailureClassification → Statement
  escalate_at_once k = do
    move awaiting_human "classifier_escalate"
    count agent_runs_escalated_total
    finish true
    λ p.
        done
          (record {
            state = p.machine.status;
            classification = k;
            plan = none;
            proposal = none;
            evaluation = none;
            policy = none;
            escalation = some (build_escalation k none none []);
            verification = none;
            attempts = p.retry_budget.attempts_used;
          })
          p

  -- The loop, with one round more than the budget has attempts left.
  abbrev pub repair_loop :
      Context → FailureClassification → Pipeline → Run Pipeline PipelineResult PipelineError
  repair_loop c k p =
      loop (round c k) (suc (p.retry_budget.max_attempts - p.retry_budget.attempts_used)) p

  -- The classification, and its branch to people.
  abbrev pub classified_as : FailureClassification → Statement
  classified_as k = do
    move classified k.failure_class
    note "FAILURE_CLASSIFIED"
    if str_eq k.recommended_next_action "escalate_human" then escalate_at_once k else next

  -- Behind `self.classifier.classify(event)`.
  unfoldable pub after_classification :
      Context → Option FailureClassification → Pipeline → Run Pipeline PipelineResult PipelineError
  after_classification c none p = Run.failed from_collaborator
  after_classification c (some k) p = looped (repair_loop c k) (classified_as k p)

  -- Behind `self.context_builder.build(event)`.
  unfoldable pub after_context :
      Option Context → Pipeline → Run Pipeline PipelineResult PipelineError
  after_context none p = Run.failed from_collaborator
  after_context (some c) p =
      looped (after_classification c (parts.classify e)) (move context_ready "context_built" p)

  abbrev pub started : RetryBudget → List Metric → List String → Pipeline
  started b metrics audit = record {
    machine = Lifecycle.initial received;
    retry_budget = b;
    attempts = [];
    tool_names = [];
    policy_decision = none;
    metrics = metrics ++ agent_runs_total ∷ [];
    audit = audit ++ "RUN_STARTED" ∷ [];
    saved = some (received, false);
  }

  unfoldable pub run :
      RetryBudget → List Metric → List String → Run Pipeline PipelineResult PipelineError
  run b metrics audit = after_context (parts.build_context e) (started b metrics audit)
