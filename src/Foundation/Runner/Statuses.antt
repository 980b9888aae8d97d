-- ===== src/Foundation/Runner/Statuses.antt =====
-- The statuses in which a run of ci_failure_orchestrator/foundation/runner.py ends, and those in which
-- its collaborators may raise.
use ci_failure_orchestrator.Common.{
  ℕ, ◌≤◌, zero, suc, ◌+◌, String, Bool, true, false, Option, none, some, ◌==◌, ◌≡◌, refl, sym,
  subst, arith, inl, inr, ◌⊎◌,
}
use ci_failure_orchestrator.Lifecycle
use ci_failure_orchestrator.Lifecycle.{Machine}
use ci_failure_orchestrator.Foundation.Models.{RepairProposal, SandboxResult, EvaluationResult}
use ci_failure_orchestrator.Foundation.StateMachine.{
  RunStatus, transition, allowed, terminal, is, received, context_ready, classified, planned,
  evaluated, retrying,
}
use ci_failure_orchestrator.Foundation.Evaluator.{evaluate}
use ci_failure_orchestrator.Foundation.Runner.{
  Cause, illegal_transition, failed_call, Runner, RunState, start, FoundationResult, Run, ok,
  raised, M, pure, move, open_attempt, replan, prepare, record_attempt, attempt, exhausted, loop,
  crashed, run,
}
use ci_failure_orchestrator.Foundation.Runner.Ends.{Ends, bind-Ends, calls-Ends}
use ci_failure_orchestrator.Foundation.Runner.Verdicts.{
  Calling, Closed, Closes, allowed_from, move-allowed, allowed-Ends, Retries, judge-Retries,
}

module _ {Plan : Type 0} (w : Runner Plan) where
  -- Where an attempt begins, and where it is planned.
  abbrev Entered : ℕ → RunState → Type 0
  Entered n s =
      (((n == 1) ≡ true) × (s.machine.status ≡ received))
      ⊎ (((n == 1) ≡ false) × (s.machine.status ≡ retrying))

  abbrev Opened : ℕ → Bool → RunState → Type 0
  Opened n _ s =
      (((n == 1) ≡ true) × (s.machine.status ≡ classified))
      ⊎ (((n == 1) ≡ false) × (s.machine.status ≡ retrying))

  abbrev At : {A : Type 0} → RunStatus → A → RunState → Type 0
  At x _ s = s.machine.status ≡ x

  move-At :
      (x to : RunStatus) (reason : String) (s : RunState)
      → s.machine.status ≡ x
      → allowed x to ≡ true
      → Ends (At to) Calling (move to reason s)
  move-At x to reason s at h =
      subst (Ends (At to) Calling)
        (sym (move-allowed to reason s (allowed_from s.machine x to at h))) refl

  open_attempt-Opened :
      (n : ℕ) (s : RunState) → Entered n s → Ends (Opened n) Calling (open_attempt w n s)
  unfolding open_attempt allowed
  open_attempt-Opened n s (inl (first, at)) = rw first (
      calls-Ends (Opened n) Calling (w.build_context n s.attempts) s _ (rw at refl) λ _ _.
        allowed-Ends (Opened n) _ _ _ s _ at refl λ m at1.
          calls-Ends (Opened n) Calling w.classify _ _ (rw at1 refl) λ _ _.
            subst (Ends (Opened n) Calling)
              (sym (move-allowed _ _ _ (allowed_from m context_ready classified at1 refl)))
              (inl (first, refl)))
  open_attempt-Opened n s (inr (later, at)) = rw later (
      calls-Ends (Opened n) Calling (w.build_context n s.attempts) s _ (rw at refl)
        λ _ _. inr (later, at))

  Opened-Calling : (n : ℕ) (b : Bool) (s : RunState) → Opened n b s → Calling failed_call s
  Opened-Calling n b s (inl (_, at)) = rw at refl
  Opened-Calling n b s (inr (_, at)) = rw at refl

  replan-At :
      (n : ℕ) (b : Bool) (s : RunState) → Opened n b s → Ends (At planned) Calling (replan w n s)
  unfolding replan allowed
  replan-At n b s (inl (first, at)) = rw first (move-At classified planned _ s at refl)
  replan-At n b s (inr (later, at)) =
      let still : is s.machine.status retrying ≡ true = rw at refl in
      rw (later, still) (move-At retrying planned _ s at refl)

  prepare-At : (n : ℕ) (s : RunState) → Entered n s → Ends (At evaluated) Calling (prepare w n s)
  unfolding prepare allowed
  prepare-At n s enter =
      bind-Ends (Opened n) Ready Calling (open_attempt w n) _ s (open_attempt-Opened n s enter)
        λ b s1 opened.
          calls-Ends Ready Calling (w.plan n s1.attempts) s1 _ (Opened-Calling n b s1 opened)
            λ plan _.
              bind-Ends (At planned) Ready Calling (replan w n) _ s1 (replan-At n b s1 opened)
                λ _ s2 at. allowed-Ends Ready _ _ _ s2 _ at refl λ m1 at1.
                  calls-Ends Ready Calling (w.run_tools n plan) _ _ (rw at1 refl) λ tools _.
                    calls-Ends Ready Calling (w.propose n plan) _ _ (rw at1 refl) λ proposal _.
                      allowed-Ends Ready _ _ _ _ _ at1 refl λ m2 at2.
                        allowed-Ends Ready _ _ _ _ _ at2 refl λ m3 at3.
                          calls-Ends Ready Calling (w.execute n proposal) _ _ (rw at3 refl)
                            λ sandbox _. allowed-Ends Ready _ _ _ _ _ at3 refl λ m4 at4.
                              calls-Ends Ready Calling (evaluate proposal sandbox) _ _ (rw at4 refl)
                                λ ev _. allowed-Ends Ready _ _ _ _ _ at4 refl λ m5 at5. at5
    where
      Ready : RepairProposal × SandboxResult × EvaluationResult → RunState → Type 0
      Ready = At evaluated

  attempt-Retries : (n : ℕ) (s : RunState) → Entered n s → Ends (Retries w) Calling (attempt w n s)
  unfolding attempt record_attempt
  attempt-Retries n s enter =
      bind-Ends (At evaluated) (Retries w) Calling (prepare w n) _ s (prepare-At n s enter)
        λ (proposal, sandbox, ev) s1 at. judge-Retries w ev.passed proposal ev _ at

  exhausted-Closes : (n : ℕ) (s : RunState) → Entered n s → Ends Closes Calling (exhausted w s)
  unfolding exhausted transition Lifecycle.transition allowed terminal
  exhausted-Closes n s (inl (_, at)) = (rw at refl, refl)
  exhausted-Closes n s (inr (_, at)) = (rw at refl, refl)

  loop-Closes :
      (left n : ℕ) (s : RunState) → 1 ≤ n → Entered n s → Ends Closes Calling (loop w left n s)
  unfolding loop
  loop-Closes zero n s h enter = exhausted-Closes n s enter
  loop-Closes (suc left) n s h enter =
      bind-Ends (Retries w) Closes Calling (attempt w n) _ s (attempt-Retries n s enter)
        λ o s1 goes.
          continue
            (λ s2 at. loop-Closes left (n + 1) s2 (omega (arith, h)) (inr (ground (arith, h), at)))
            o s1 goes
    where
      continue :
          ((s2 : RunState)
            → s2.machine.status ≡ retrying
            → Ends Closes Calling (loop w left (n + 1) s2))
          → (o : Option FoundationResult) (s1 : RunState) → Retries w o s1
          → Ends Closes Calling (
              (elim o as (λ _. M FoundationResult) [ some r ↦ pure r | none ↦ loop w left (n + 1) ])
                s1)
      continue next (some r) s1 closed = closed
      continue next none s1 at = next s1 at

  crashed-Closed : (c : Cause) (s : RunState) → Calling c s → Closed (crashed w s).run
  unfolding crashed transition Lifecycle.transition allowed terminal
  crashed-Closed illegal_transition s h = absurd h
  crashed-Closed failed_call s h = (ground (arith, h), refl)

  -- The loop of a run ends, or is left by an exception, as `Ends` says.
  abbrev pub Outcome : Type 0
  Outcome = Ends Closes Calling (loop w w.retry_budget.max_attempts 1 start)

-- No transition of a run is illegal. Whatever the collaborators answer or raise, an exception that
-- leaves the loop is never the state machine's, but one of a collaborator in a status in which the loop
-- calls one; and the run ends in a terminal status, which is that of its state machine.
pub run-Closed : {Plan : Type 0} (w : Runner Plan) → Outcome w × Closed (run w).run
unfolding run crashed
run-Closed w = (ends, through (loop w w.retry_budget.max_attempts 1 start) ends)
  where
    ends : Outcome w
    ends = loop-Closes w w.retry_budget.max_attempts 1 start (omega arith) (inl (refl, refl))

    through :
        (r : Run FoundationResult)
        → Ends Closes Calling r
        → Closed (elim r as (λ _. FoundationResult) [ ok r s ↦ r | raised c s ↦ crashed w s ]).run
    through (ok r s) closed = closed
    through (raised c s) h = crashed-Closed w c s h
