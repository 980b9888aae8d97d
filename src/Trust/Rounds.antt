-- ===== src/Trust/Rounds.antt =====
-- A round of the gateway (trust_gateway.py) keeps its accounts, whatever its collaborators answer.
use ci_failure_orchestrator.Common.{
  ℕ, ◌+◌, Bool, true, false, ◌&&◌, ◌||◌, Option, none, some, any, ltb, str_eq, codes, ends_with,
  Bool-cases, String, ap, if_keeps, if◌then◌else◌, ◌≡◌, refl, ◌∙◌, inl, inr,
}
use ci_failure_orchestrator.Loops.{Step, if_applied, ◌>>◌}
use ci_failure_orchestrator.Trust.Machine.{
  proposed, context_ready, policy_evaluated, sandbox_ready, executing, is, transitions,
}
use ci_failure_orchestrator.Trust.Defs.{
  RepairProposal, TrustDecision, allow, deny, require_approval, PolicyResult, ToolExecutionResult,
  RetryBudget, evaluate, missing, EvaluationResult, GatewayResult,
}
use ci_failure_orchestrator.Trust.Attempt.{
  Execution, executed, caught, escaped, Collaborators, Gateway, GatewayError, AuditLog, logged,
  outcome, failed_execution, Statement, escalate,
}
use ci_failure_orchestrator.Trust.Gateway.{
  after_execution, execute_in, in_sandbox, after_budget, approved_by, by_decision, after_policy,
  after_context, check_fingerprint, check_proposal, after_request, round,
}
use ci_failure_orchestrator.Trust.Accounts.{
  Tally, Good, Tried, Paid, Permitted, Ran, Grounded, noted, unsuccessful, fail_attempt-Tried,
  after_verification-Tried, consume-Paid, exhausted-Good, Tried-Good,
}

module _ {Context Workspace : Type 0} (parts : Collaborators Context Workspace)
    (human_approved : Bool) (start : RetryBudget) where
  abbrev Keeps : ℕ → Step Gateway GatewayResult GatewayError → Type 0
  Keeps n s = Good parts human_approved start n s

  abbrev Tries : ℕ → Step Gateway GatewayResult GatewayError → Type 0
  Tries n s = Tried parts human_approved start n s

  abbrev Counts : ℕ → Gateway → Type 0
  Counts under_way g = Tally parts human_approved start under_way g.retry_budget g.attempts

  after_execution-Tried :
      (n : ℕ) (p : RepairProposal) (policy : PolicyResult) (result : ToolExecutionResult)
      (left : Workspace) (g : Gateway)
      → g.state.state ≡ executing
      → Counts 1 g
      → g.retry_budget.attempts ≡ n
      → Permitted parts human_approved p policy
      → Ran parts human_approved n p result left
      → Tries n (after_execution parts n p policy result left g)
  unfolding after_execution
  after_execution-Tried n p policy result left g st t e ok ran =
      let found : (ver : Option EvaluationResult)
          → ver ≡ (if (evaluate p result).success then parts.verify p left else none)
          → Grounded parts human_approved n p policy (evaluate p result) ver =
        λ ver answer. record {
          result = result;
          left = left;
          permitted = ok;
          ran = ran;
          evaluated = refl;
          answered = answer;
        } in
      noted (Tries n) g.audit _ _ refl (
        rw st (
          noted (Tries n) (logged "sandbox_execution" g.audit) _ _ refl (
            if_applied (Tries n) (evaluate p result).success _ _ _
              (λ passed.
                after_verification-Tried parts human_approved start n p policy (evaluate p result)
                  (parts.verify p left) _ refl t e (found _ (rw passed refl)) passed)
              (λ failed.
                fail_attempt-Tried parts human_approved start n p policy (evaluate p result) none _
                  refl t e (found none (rw failed refl)) refl))))

  execute_in-Tried :
      (n : ℕ) (p : RepairProposal) (policy : PolicyResult) (x : Execution Workspace)
      (workspace : Workspace) (g : Gateway)
      → g.state.state ≡ executing
      → Counts 1 g
      → g.retry_budget.attempts ≡ n
      → Permitted parts human_approved p policy
      → parts.isolate n ≡ some workspace
      → parts.execute p workspace ≡ x
      → Tries n (execute_in parts n p policy x g)
  unfolding execute_in
  execute_in-Tried n p policy (executed result w) workspace g st t e ok i x =
      after_execution-Tried n p policy result w g st t e ok
        (record { workspace = workspace; isolated = i; ran = ap outcome x })
  execute_in-Tried n p policy (caught w) workspace g st t e ok i x =
      after_execution-Tried n p policy failed_execution w g st t e ok
        (record { workspace = workspace; isolated = i; ran = ap outcome x })
  execute_in-Tried n p policy escaped workspace g st t e ok i x = refl

  in_sandbox-Tried :
      (n : ℕ) (p : RepairProposal) (policy : PolicyResult) (w : Option Workspace) (g : Gateway)
      → parts.isolate n ≡ w
      → g.state.state ≡ sandbox_ready
      → Counts 1 g
      → g.retry_budget.attempts ≡ n
      → Permitted parts human_approved p policy
      → Tries n (in_sandbox parts n p policy w g)
  unfolding in_sandbox
  in_sandbox-Tried n p policy none g i st t e ok = refl
  in_sandbox-Tried n p policy (some w) g i st t e ok =
      if_keeps (Tries n) (parts.cleanup_raises n) _ _ (λ _. refl)
        (λ _. rw st (execute_in-Tried n p policy (parts.execute p w) w _ refl t e ok i refl))

  after_budget-Good :
      (n : ℕ) (p : RepairProposal) (policy : PolicyResult) (spent : Option (Bool × RetryBudget))
      (g : Gateway)
      → Paid parts human_approved start g.retry_budget g.attempts spent
      → g.state.state ≡ policy_evaluated
      → Counts 0 g
      → g.retry_budget.attempts + 1 ≡ n
      → Permitted parts human_approved p policy
      → Keeps n (after_budget parts n p policy spent g)
  unfolding after_budget
  after_budget-Good n p policy none g paid st t e ok = refl
  after_budget-Good n p policy (some (true, b)) g paid st t e ok = rw st (
      Tried-Good parts human_approved start n _
        (in_sandbox-Tried n p policy (parts.isolate n) _ refl refl paid.0 (paid.1 ∙ e) ok))
  after_budget-Good n p policy (some (false, b)) g paid st t e ok =
      exhausted-Good parts human_approved start n _ g (rw st refl) t

  approved_by-Good :
      (n : ℕ) (policy : PolicyResult) (rest : Statement) (g : Gateway)
      → ((audit : AuditLog) → Keeps n (rest (record g { audit = audit })))
      → Keeps n ((approved_by parts human_approved policy >> rest) g)
  unfolding approved_by
  approved_by-Good n policy rest g keeps =
      elim (Bool-cases (human_approved && ends_with (codes "_APPROVED") (codes policy.rule_id))) [
        | inl asked ↦ rw asked (noted (Keeps n) g.audit rest _ refl (keeps _))
        | inr otherwise ↦ rw otherwise (keeps g.audit)
      ]

  by_decision-Good :
      (n : ℕ) (p : RepairProposal) (policy : PolicyResult) (decision : TrustDecision)
      (context : Context) (g : Gateway)
      → policy.decision ≡ decision
      → parts.build_context p human_approved ≡ some context
      → parts.evaluate_policy context ≡ some policy
      → g.state.state ≡ policy_evaluated
      → Counts 0 g
      → g.retry_budget.attempts + 1 ≡ n
      → Keeps n (by_decision parts human_approved n p policy decision g)
  unfolding by_decision
  by_decision-Good n p policy deny context g d c v st t e =
      rw st (unsuccessful parts human_approved start _ _ t refl refl refl)
  by_decision-Good n p policy require_approval context g d c v st t e = rw st (
      noted (Keeps n) g.audit _ _ refl
        (unsuccessful parts human_approved start _ _ t refl refl refl))
  by_decision-Good n p policy allow context g d c v st t e = approved_by-Good n policy _ _ (λ audit.
      after_budget-Good n p policy _ _
        (consume-Paid parts human_approved start (parts.out_of_time n) p.estimated_cost
          g.retry_budget g.attempts t)
        st t e (record { context = context; built = c; decided = v; allowed = rw d refl }))

  after_policy-Good :
      (n : ℕ) (p : RepairProposal) (policy : Option PolicyResult) (context : Context) (g : Gateway)
      → parts.build_context p human_approved ≡ some context
      → parts.evaluate_policy context ≡ policy
      → g.state.state ≡ context_ready
      → Counts 0 g
      → g.retry_budget.attempts + 1 ≡ n
      → Keeps n (after_policy parts human_approved n p policy g)
  unfolding after_policy
  after_policy-Good n p none context g c v st t e = refl
  after_policy-Good n p (some policy) context g c v st t e = rw st (
      noted (Keeps n) g.audit _ _ refl
        (by_decision-Good n p policy policy.decision context _ refl c v refl t e))

  after_context-Good :
      (n : ℕ) (p : RepairProposal) (context : Option Context) (g : Gateway)
      → parts.build_context p human_approved ≡ context
      → g.state.state ≡ proposed
      → Counts 0 g
      → g.retry_budget.attempts + 1 ≡ n
      → Keeps n (after_context parts human_approved n p context g)
  unfolding after_context
  after_context-Good n p none g c st t e = refl
  after_context-Good n p (some context) g c st t e = rw st (
      noted (Keeps n) g.audit _ _ refl (
        noted (Keeps n) (logged "context_created" g.audit) _ _ refl
          (after_policy-Good n p (parts.evaluate_policy context) context _ c refl refl t e)))

  escalate-Good :
      (n : ℕ) (reason : String) (g : Gateway)
      → g.state.state ≡ proposed
      → Counts 0 g
      → Keeps n (escalate reason g)
  escalate-Good n reason g st t = rw st (
      noted (Keeps n) g.audit _ _ refl
        (unsuccessful parts human_approved start _ _ t refl refl refl))

  check_fingerprint-Good :
      (n : ℕ) (p : RepairProposal) (fingerprint : Option String) (g : Gateway)
      → g.state.state ≡ proposed
      → Counts 0 g
      → g.retry_budget.attempts + 1 ≡ n
      → Keeps n (check_fingerprint parts human_approved n p fingerprint g)
  unfolding check_fingerprint
  check_fingerprint-Good n p none g st t e = refl
  check_fingerprint-Good n p (some fingerprint) g st t e =
      if_keeps (Keeps n) (any (str_eq fingerprint) g.fingerprints) _ _
        (λ _. escalate-Good n _ g st t)
        (λ _. after_context-Good n p (parts.build_context p human_approved) _ refl st t e)

  check_proposal-Good :
      (n : ℕ) (p : RepairProposal) (g : Gateway)
      → g.state.state ≡ proposed
      → Counts 0 g
      → g.retry_budget.attempts + 1 ≡ n
      → Keeps n (check_proposal parts human_approved n p g)
  unfolding check_proposal
  check_proposal-Good n p g st t e =
      if_keeps (Keeps n) (ltb 1 n && (missing p.reason_for_retry || missing p.changed_assumption)) _
        _ (λ _. escalate-Good n _ g st t)
        (λ _. check_fingerprint-Good n p (parts.fingerprint p) g st t e)

  after_request-Good :
      (n : ℕ) (p : Option RepairProposal) (g : Gateway)
      → any (is proposed) (transitions g.state.state) ≡ true
      → Counts 0 g
      → g.retry_budget.attempts + 1 ≡ n
      → Keeps n (after_request parts human_approved n p g)
  unfolding after_request
  after_request-Good n none g can t e = refl
  after_request-Good n (some p) g can t e =
      rw can (noted (Keeps n) g.audit _ _ refl (check_proposal-Good n p _ refl t e))

  pub round-Good :
      (g : Gateway)
      → any (is proposed) (transitions g.state.state) ≡ true
      → Counts 0 g
      → Keeps (g.retry_budget.attempts + 1) (round parts human_approved g)
  unfolding round
  round-Good g can t = after_request-Good (g.retry_budget.attempts + 1) _ g can t refl
