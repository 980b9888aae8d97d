-- ===== src/Governed/Rounds.antt =====
-- A round of the governed pipeline (ci_failure_orchestrator/governed/pipeline.py) and its loop.
use ci_failure_orchestrator.Common.{
  ℕ, ◌+◌, ◌-◌, ◌≤◌, ◌<◌, suc, String, Bool, true, false, ◌&&◌, List, [], ◌∷◌, Option, none, some,
  str_eq, Bool-cases, append-nil, ◌≡◌, refl, sym, subst, ap, inl, inr, arith,
}
use mathlib.Core.Bool.{false≢true}
use ci_failure_orchestrator.Lifecycle.{transition}
use ci_failure_orchestrator.Loops.{looped, Run, if_applied, Ends, loop-Ends, go_on}
use ci_failure_orchestrator.Governed.States.{context_ready, planned, executing, evaluating, allowed}
use ci_failure_orchestrator.Governed.Defs.{
  FailureEvent, FailureClassification, RepairPlan, RepairProposal, SandboxResult, EvaluationResult,
  PolicyDecision,
}
use ci_failure_orchestrator.Governed.Retry.{RetryBudget, record_attempt}
use ci_failure_orchestrator.Governed.Outcomes.{
  PipelineResult, Pipeline, PipelineError, Collaborators, Statement,
}
use ci_failure_orchestrator.Governed.Pipeline.{
  invoke_tools, failure_fingerprint, after_evaluation, after_sandbox, after_proposal, after_plan,
  round, classified_as, repair_loop,
}
use ci_failure_orchestrator.Governed.Accounts.{expected_error, Tally, recorded}
use ci_failure_orchestrator.Governed.Endings.{
  Accounts, Ready, left, Kept, decide_retry-Kept, after_policy-Kept,
}

and-false : (b : Bool) → (b && false) ≡ false
and-false b = ground arith

-- The calls that a proposal, its evaluation and the decision on it come from.
pub record Judged {Context : Type 0} (parts : Collaborators Context) (k : FailureClassification)
    (proposal : RepairProposal) (ev : EvaluationResult) (d : PolicyDecision) : Type 0 where
  pub attempt : ℕ
  pub sandbox : SandboxResult
  pub tools : List String
  pub sandboxed : parts.sandbox attempt proposal ≡ some sandbox
  pub evaluated : parts.evaluate proposal sandbox true ≡ some ev
  pub decided : parts.policy proposal k ev tools ≡ some d

module _ (start : RetryBudget) (positive : 1 ≤ start.repeated_failure_limit) {Context : Type 0}
    (parts : Collaborators Context) (e : FailureEvent) (k : FailureClassification) where
  abbrev mark : String
  mark = failure_fingerprint parts e k

  counted_once :
      (proposal : RepairProposal) (p : Pipeline)
      → (record_attempt mark (parts.sha256 proposal.proposed_patch) p.retry_budget).attempts_used
        ≡ p.retry_budget.attempts_used + 1
  unfolding record_attempt
  counted_once proposal p = refl

  after_evaluation-Kept :
      (plan : RepairPlan) (proposal : RepairProposal) (ev : Option EvaluationResult) (at : ℕ)
      (s : SandboxResult) (p : Pipeline) (n : ℕ)
      → parts.sandbox at proposal ≡ some s
      → parts.evaluate proposal s true ≡ ev
      → p.machine.status ≡ evaluating
      → Tally start mark p.retry_budget n
      → n < start.repeated_failure_limit
      → Kept start
          (Judged parts)
          mark
          p.retry_budget.attempts_used
          (after_evaluation parts e k plan proposal ev p)
  unfolding after_evaluation transition
  after_evaluation-Kept plan proposal none at s p n tried judged st t few = refl
  after_evaluation-Kept plan proposal (some ev) at s p n tried judged st t few =
      let counted = recorded start mark p.retry_budget n (parts.sha256 proposal.proposed_patch) t in
      if_applied (Kept start (Judged parts) mark p.retry_budget.attempts_used) ev.passed _ _ _
        (λ passed. rw st (
          after_policy-Kept start (Judged parts) mark k _ _ _ (suc n) _
            (λ d decided. record {
              attempt = at;
              sandbox = s;
              tools = p.tool_names;
              sandboxed = tried;
              evaluated = judged;
              decided = decided;
            })
            refl passed counted (omega arith) positive (counted_once proposal p)))
        (λ down.
          decide_retry-Kept start (Judged parts) mark k _ _ (suc n) _ (inl st)
            (rw down (and-false _)) counted (omega arith) positive (counted_once proposal p))

  after_sandbox-Kept :
      (plan : RepairPlan) (proposal : RepairProposal) (s : Option SandboxResult) (at : ℕ)
      (p : Pipeline) (n : ℕ)
      → parts.sandbox at proposal ≡ s
      → p.machine.status ≡ executing
      → Tally start mark p.retry_budget n
      → n < start.repeated_failure_limit
      → Kept start
          (Judged parts)
          mark
          p.retry_budget.attempts_used
          (after_sandbox parts e k plan proposal s p)
  unfolding after_sandbox transition
  after_sandbox-Kept plan proposal none at p n tried st t few = refl
  after_sandbox-Kept plan proposal (some s) at p n tried st t few = rw st (
      after_evaluation-Kept plan proposal (parts.evaluate proposal s true) at s _ n tried refl refl
        t few)

  after_proposal-Kept :
      (at : ℕ) (plan : RepairPlan) (proposal : Option RepairProposal) (p : Pipeline) (n : ℕ)
      → p.machine.status ≡ executing
      → Tally start mark p.retry_budget n
      → n < start.repeated_failure_limit
      → Kept start
          (Judged parts)
          mark
          p.retry_budget.attempts_used
          (after_proposal parts e at k plan proposal p)
  unfolding after_proposal
  after_proposal-Kept at plan none p n st t few = refl
  after_proposal-Kept at plan (some proposal) p n st t few =
      after_sandbox-Kept plan proposal (parts.sandbox at proposal) at _ n refl st t few

  -- The calls of the tools, and what runs behind them.
  invoke_tools-Kept :
      (at : ℕ) (tools : List String) (behind : Statement) (p : Pipeline) (used : ℕ)
      → ((q : Pipeline)
          → q.machine ≡ p.machine
          → q.retry_budget ≡ p.retry_budget
          → Kept start (Judged parts) mark used (behind q))
      → Kept start (Judged parts) mark used (go_on behind (invoke_tools parts e at tools p))
  unfolding invoke_tools
  invoke_tools-Kept at [] behind p used h = h p refl refl
  invoke_tools-Kept at (tool ∷ rest) behind p used h = elim (Bool-cases (parts.registered tool)) [
    | inl known ↦ rw known (invoke_tools-Kept at rest behind _ used h)
    | inr unknown ↦ rw unknown refl
  ]

  after_plan-Kept :
      (at : ℕ) (c : Context) (plan : Option RepairPlan) (p : Pipeline) (n : ℕ)
      → allowed p.machine.status planned ≡ true
      → Tally start mark p.retry_budget n
      → n < start.repeated_failure_limit
      → Kept start
          (Judged parts)
          mark
          p.retry_budget.attempts_used
          (after_plan parts e at c k plan p)
  unfolding after_plan transition
  after_plan-Kept at c none p n can t few = refl
  after_plan-Kept at c (some plan) p n can t few = rw can (
      invoke_tools-Kept at plan.tools
        (after_proposal parts e at k plan (parts.propose_repair at c plan)) _
        p.retry_budget.attempts_used
        (λ q same_machine same_budget.
          subst
            (λ used.
              Kept start (Judged parts) mark used
                (after_proposal parts e at k plan (parts.propose_repair at c plan) q))
            (ap (λ b. b.attempts_used) same_budget)
            (after_proposal-Kept at plan (parts.propose_repair at c plan) q n
              (ap (λ m. m.status) same_machine) (rw same_budget t) few)))

  round-Kept :
      (c : Context) (p : Pipeline)
      → Ready start (Judged parts) mark p
      → Kept start (Judged parts) mark p.retry_budget.attempts_used (round parts e c k p)
  unfolding round
  round-Kept c p r =
      after_plan-Kept p.retry_budget.attempts_used c _ p r.seen r.can_plan r.tally r.few

  -- A run that returns accounts or raises what is expected.
  abbrev pub Closed : Run Pipeline PipelineResult PipelineError → Type 0
  Closed =
      Ends (Ready start (Judged parts) mark) (left start (Judged parts) mark)
        (Accounts start (Judged parts)) expected_error

  repair_loop-Closed :
      (c : Context) (p : Pipeline)
      → Ready start (Judged parts) mark p
      → Closed (repair_loop parts e c k p)
  repair_loop-Closed c p r =
      loop-Ends (Ready start (Judged parts) mark) (left start (Judged parts) mark)
        (Accounts start (Judged parts)) expected_error (round parts e c k) (round-Kept c)
        (suc (p.retry_budget.max_attempts - p.retry_budget.attempts_used)) p r
        (ground (arith, r.tally.same_max))

  first-Tally : (b : RetryBudget) → b ≡ start → Tally start mark b 0
  first-Tally b h = rw h record {
    same_max = refl;
    same_limit = refl;
    used = ground arith;
    failures = sym (append-nil start.failure_fingerprints);
  }

  pub classified_as-Closed :
      (c : Context) (p : Pipeline)
      → p.machine.status ≡ context_ready
      → p.retry_budget ≡ start
      → Closed (looped (repair_loop parts e c k) (classified_as parts e k p))
  unfolding transition
  classified_as-Closed c p st b =
      rw st (elim (Bool-cases (str_eq k.recommended_next_action "escalate_human")) [
        | inl at_once ↦ rw at_once record {
          says = refl;
          closed = refl;
          stored = refl;
          handed_over = refl;
          fits = λ h. absurd (false≢true h);
          bounded = rw b (omega arith);
        }
        | inr planned_first ↦ rw planned_first (
            repair_loop-Closed c _ (record {
              can_plan = refl;
              seen = 0;
              tally = first-Tally p.retry_budget b;
              few = omega arith;
            }))
      ])
