-- ===== src/Foundation/Runner/Prepared.antt =====
-- An attempt of ci_failure_orchestrator/foundation/runner.py up to its evaluation keeps the attempts made
-- before, and holds its proposal and its evaluation.
use ci_failure_orchestrator.Common.{
  ℕ, ◌≤◌, String, Bool, true, Option, none, some, length, ◌==◌, ◌≡◌, refl, ap, arith, Bool-cases,
  inl, inr,
}
use ci_failure_orchestrator.Lifecycle.{Machine}
use ci_failure_orchestrator.Foundation.Models.{RepairProposal, SandboxResult, EvaluationResult}
use ci_failure_orchestrator.Foundation.StateMachine.{RunStatus, transition, is, retrying}
use ci_failure_orchestrator.Foundation.Evaluator.{evaluate}
use ci_failure_orchestrator.Foundation.Runner.Ends.{Ends, bind-Ends, move-Ends, calls-Ends}
use ci_failure_orchestrator.Foundation.Runner.{
  Cause, illegal_transition, Runner, RunState, Run, ok, raised, move, open_attempt, replan, prepare,
}

abbrev pub Within : ℕ → RunState → Type 0
Within bound s = length s.attempts ≤ bound

-- The same, whatever the exception is.
abbrev pub Kept : ℕ → Cause → RunState → Type 0
Kept bound c s = Within bound s

-- What the preparation of an attempt leaves.
abbrev pub Prepared : ℕ → RepairProposal × SandboxResult × EvaluationResult → RunState → Type 0
Prepared count (proposal, sandbox, ev) s =
    (length s.attempts ≡ count) × (s.proposal ≡ some proposal) × (s.evaluation ≡ some ev)

module _ {Plan : Type 0} (w : Runner Plan) (bound : ℕ) where
  -- A block that keeps the attempts.
  abbrev Same : RunState → Bool → RunState → Type 0
  Same s _ s' = s'.attempts ≡ s.attempts

  within : (s s' : RunState) → Within bound s → s'.attempts ≡ s.attempts → Within bound s'
  within s s' h same = ground (arith, h, ap length same)

  move-Same :
      (to : RunStatus) (reason : String) (s s' : RunState)
      → Within bound s
      → s'.attempts ≡ s.attempts
      → Ends (Same s) (Kept bound) (move to reason s')
  unfolding move
  move-Same to reason s s' h same = moved (transition s'.machine to reason)
    where
      moved :
          (o : Option (Machine RunStatus))
          → Ends (Same s) (Kept bound) (elim o as (λ o. Run Bool) [
            | none ↦ raised illegal_transition s'
            | some m ↦ ok true (record s' { machine = m; status = m.status })
          ])
      moved none = within s s' h same
      moved (some m) = same

  open_attempt-Same :
      (n : ℕ) (s : RunState) → Within bound s → Ends (Same s) (Kept bound) (open_attempt w n s)
  unfolding open_attempt
  open_attempt-Same n s h =
      calls-Ends (Same s) (Kept bound) (w.build_context n s.attempts) s _ h λ _ _.
        elim (Bool-cases (n == 1)) [
          | inl first ↦ rw first (
              move-Ends (Same s) (Kept bound) _ _ s _ h λ m _.
                calls-Ends (Same s) (Kept bound) w.classify _ _ h λ _ _. move-Same _ _ s _ h refl)
          | inr later ↦ rw later refl
        ]

  replan-Same :
      (n : ℕ) (s s' : RunState)
      → Within bound s
      → s'.attempts ≡ s.attempts
      → Ends (Same s) (Kept bound) (replan w n s')
  unfolding replan
  replan-Same n s s' h same = elim (Bool-cases (n == 1)) [
    | inl first ↦ rw first (move-Same _ _ s s' h same)
    | inr later ↦ rw later (elim (Bool-cases (is s'.machine.status retrying)) [
      | inl again ↦ rw again (move-Same _ _ s s' h same)
      | inr other ↦ rw other same
    ])
  ]

  pub prepare-Prepared :
      (n : ℕ) (s : RunState)
      → Within bound s
      → Ends (Prepared (length s.attempts)) (Kept bound) (prepare w n s)
  unfolding prepare
  prepare-Prepared n s h =
      bind-Ends (Same s) Ready (Kept bound) (open_attempt w n) _ s (open_attempt-Same n s h)
        λ _ s1 same.
          calls-Ends Ready (Kept bound) (w.plan n s1.attempts) s1 _ (within s s1 h same) λ plan _.
            bind-Ends (Same s) Ready (Kept bound) (replan w n) _ s1 (replan-Same n s s1 h same)
              λ _ s2 same2.
                let h2 = within s s2 h same2 in
                move-Ends Ready (Kept bound) _ _ s2 _ h2 λ _ _.
                  calls-Ends Ready (Kept bound) (w.run_tools n plan) _ _ h2 λ tools _.
                    calls-Ends Ready (Kept bound) (w.propose n plan) _ _ h2 λ proposal _.
                      move-Ends Ready (Kept bound) _ _ _ _ h2 λ _ _.
                        move-Ends Ready (Kept bound) _ _ _ _ h2 λ _ _.
                          calls-Ends Ready (Kept bound) (w.execute n proposal) _ _ h2 λ sandbox _.
                            move-Ends Ready (Kept bound) _ _ _ _ h2 λ _ _.
                              calls-Ends Ready (Kept bound) (evaluate proposal sandbox) _ _ h2
                                λ ev _.
                                  move-Ends Ready (Kept bound) _ _ _ _ h2
                                    λ _ _. (ap length same2, refl, refl)
    where
      Ready : RepairProposal × SandboxResult × EvaluationResult → RunState → Type 0
      Ready = Prepared (length s.attempts)
