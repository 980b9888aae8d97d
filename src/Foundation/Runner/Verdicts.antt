-- ===== src/Foundation/Runner/Verdicts.antt =====
-- The transitions of ci_failure_orchestrator/foundation/runner.py from an evaluation on are allowed.
use ci_failure_orchestrator.Common.{
  String, Bool, true, false, [], ◌∷◌, ◌++◌, Option, none, some, ◌≡◌, refl, sym, subst, arith,
  Bool-cases, inl, inr,
}
use ci_failure_orchestrator.Lifecycle
use ci_failure_orchestrator.Lifecycle.{Machine}
use ci_failure_orchestrator.Foundation.Models.{RepairProposal, EvaluationResult}
use ci_failure_orchestrator.Foundation.StateMachine.{
  received, context_ready, RunStatus, transition, allowed, terminal, classified, executing,
  sandbox_running, evaluating, evaluated, retrying, policy_review, escalated,
}
use ci_failure_orchestrator.Foundation.Retry.{decide}
use ci_failure_orchestrator.Foundation.Policy.Defs.{
  PolicyDecision, PolicyOutcome, approve, reject, escalate,
}
use ci_failure_orchestrator.Foundation.Runner.{
  Cause, illegal_transition, failed_call, Runner, RunState, FoundationResult, Run, ok, raised, M,
  ◌>>=◌, move, build_package, conclude, run_policy_gate, decide_retry, judge,
}
use ci_failure_orchestrator.Foundation.Runner.Ends.{Ends, bind-Ends}

-- The statuses in which the runner calls what it was handed.
abbrev pub calling : RunStatus → Bool
calling received = true
calling context_ready = true
calling classified = true
calling retrying = true
calling executing = true
calling sandbox_running = true
calling evaluating = true
calling _ = false

-- No transition is refused, and a call may only fail in those.
abbrev pub Calling : Cause → RunState → Type 0
Calling illegal_transition s = ⊥
Calling failed_call s = calling s.machine.status ≡ true

-- The status of the run is the state machine's, and terminal.
abbrev pub Closed : RunState → Type 0
Closed s = (s.machine.status ≡ s.status) × (terminal s.status ≡ true)

abbrev pub Closes : FoundationResult → RunState → Type 0
Closes r s = Closed r.run

pub allowed_from :
    (m : Machine RunStatus) (x to : RunStatus)
    → m.status ≡ x
    → allowed x to ≡ true
    → allowed m.status to ≡ true
allowed_from m x to at h = rw at h

abbrev pub moved : RunStatus → String → Machine RunStatus → Machine RunStatus
moved to reason m = record { status = to; history = m.history ++ (m.status, to, reason) ∷ [] }

pub move-allowed :
    (to : RunStatus) (reason : String) (s : RunState)
    → allowed s.machine.status to ≡ true
    → move to reason s ≡ ok true (record s { machine = moved to reason s.machine; status = to })
unfolding move transition Lifecycle.transition
move-allowed to reason s h = ground (arith, h)

-- A transition that is allowed, and what follows it.
pub allowed-Ends :
    {B : Type 0} (Q : B → RunState → Type 0) (x to : RunStatus) (reason : String) (s : RunState)
    (f : Bool → M B)
    → s.machine.status ≡ x
    → allowed x to ≡ true
    → ((m : Machine RunStatus)
        → m.status ≡ to
        → Ends Q Calling (f true (record s { machine = m; status = m.status })))
    → Ends Q Calling ((move to reason >>= f) s)
allowed-Ends {B = B} Q x to reason s f at h k =
    subst
      (λ r.
        Ends Q Calling (elim r as (λ _. Run B) [ ok a s' ↦ f a s' | raised c s' ↦ raised c s' ]))
      (sym (move-allowed to reason s (allowed_from s.machine x to at h)))
      (k (moved to reason s.machine) refl)

module _ {Plan : Type 0} (w : Runner Plan) where
  build_package-Closes :
      (d : PolicyDecision) (proposal : RepairProposal) (s : RunState)
      → s.machine.status ≡ escalated
      → Ends Closes Calling (build_package w d proposal s)
  unfolding build_package allowed terminal
  build_package-Closes d proposal s at = allowed-Ends Closes _ _ _ s _ at refl λ m at1.
      elim (Bool-cases (w.builds_escalation d proposal)) [
        | inl built ↦
            rw built (allowed-Ends Closes _ _ _ _ _ at1 refl λ m' at2. (refl, rw at2 refl))
        | inr fails ↦
            rw fails (allowed-Ends Closes _ _ _ _ _ at1 refl λ m' at2. (refl, rw at2 refl))
      ]

  conclude-Closes :
      (o : PolicyOutcome) (d : PolicyDecision) (proposal : RepairProposal) (s : RunState)
      → s.machine.status ≡ policy_review
      → Ends Closes Calling (conclude w o d proposal s)
  unfolding conclude allowed terminal
  conclude-Closes approve d proposal s at =
      allowed-Ends Closes _ _ _ s _ at refl λ m at1. (refl, rw at1 refl)
  conclude-Closes reject d proposal s at =
      allowed-Ends Closes _ _ _ s _ at refl λ m at1. (refl, rw at1 refl)
  conclude-Closes escalate d proposal s at =
      allowed-Ends Closes _ _ _ s _ at refl λ m at1. build_package-Closes d proposal _ at1

  -- What an attempt leaves: a closed result, or RETRYING.
  abbrev pub Retries : Option FoundationResult → RunState → Type 0
  Retries none s = s.machine.status ≡ retrying
  Retries (some r) s = Closed r.run

  pub judge-Retries :
      (b : Bool) (proposal : RepairProposal) (ev : EvaluationResult) (s : RunState)
      → s.machine.status ≡ evaluated
      → Ends Retries Calling (judge w b proposal ev s)
  unfolding judge run_policy_gate decide_retry allowed terminal
  judge-Retries true proposal ev s at =
      bind-Ends Closes Retries Calling (run_policy_gate w proposal ev) _ s
        (allowed-Ends Closes _ _ _ s _ at refl λ m at1. conclude-Closes _ _ proposal _ at1)
        λ r s' closed. closed
  judge-Retries false proposal ev s at = allowed-Ends Retries _ _ _ s _ at refl λ m at1.
      elim (Bool-cases (decide w.retry_budget s.attempts ev).should_retry) [
        | inl again ↦ rw again (allowed-Ends Retries _ _ _ _ _ at1 refl λ m' at2. at2)
        | inr stops ↦
            rw stops (allowed-Ends Retries _ _ _ _ _ at1 refl λ m' at2. (refl, rw at2 refl))
      ]
