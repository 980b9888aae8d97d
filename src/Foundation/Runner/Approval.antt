-- ===== src/Foundation/Runner/Approval.antt =====
-- What a run of ci_failure_orchestrator/foundation/runner.py that is approved has gone through.
use ci_failure_orchestrator.Common.{
  ℕ, zero, suc, ◌+◌, ◌≤◌, Bool, true, false, List, [], ◌∷◌, ◌++◌, Option, none, some, length, last?,
  ◌≡◌, refl, sym, ap, subst, ◌∙◌, arith, Bool-cases, inl, inr,
}
use ci_failure_orchestrator.Foundation.Models.{RepairProposal, SandboxResult, EvaluationResult}
use ci_failure_orchestrator.Foundation.StateMachine.{is, approved}
use ci_failure_orchestrator.Foundation.Retry.{decide, AttemptRecord}
use ci_failure_orchestrator.Foundation.Retry.Attempt.{build_attempt_record}
use ci_failure_orchestrator.Foundation.Policy.Defs.{
  PolicyDecision, PolicyOutcome, is_approve, approve, reject, escalate,
}
use ci_failure_orchestrator.Foundation.Runner.Ends.{Ends, bind-Ends, move-Ends}
use ci_failure_orchestrator.Foundation.Runner.Prepared.{Within, Kept, Prepared, prepare-Prepared}
use ci_failure_orchestrator.Foundation.Runner.{
  Runner, RunState, start, FoundationResult, Run, ok, raised, M, pure, build_package, conclude,
  decision_for, run_policy_gate, prepare, record_attempt, decide_retry, judge, attempt, exhausted,
  loop, crashed, run,
}

length-snoc : (xs : List AttemptRecord) (x : AttemptRecord) → length (xs ++ x ∷ []) ≡ length xs + 1
length-snoc [] x = refl
length-snoc (y ∷ ys) x = ground (arith, length-snoc ys x)

module _ {Plan : Type 0} (w : Runner Plan) (bound : ℕ) where
  -- The evidence for an approved run.
  abbrev pub Justified : FoundationResult → Type 0
  Justified r =
      (proposal : RepairProposal) × (ev : EvaluationResult) × (r.run.proposal ≡ some proposal)
      × (r.run.evaluation ≡ some ev)
      × (ev.passed ≡ true)
      × (r.decided ≡ some (decision_for w proposal ev r.run.tool_risks (length r.run.attempts)))
      × (is_approve (decision_for w proposal ev r.run.tool_risks (length r.run.attempts)).outcome
          ≡ true)

  abbrev pub Sound : FoundationResult → Type 0
  Sound r = (length r.run.attempts ≤ bound) × (is r.run.status approved ≡ true → Justified r)

  abbrev Sounds : FoundationResult → RunState → Type 0
  Sounds r s = Sound r

  build_package-Sound :
      (d : PolicyDecision) (proposal : RepairProposal) (s : RunState)
      → Within bound s
      → Ends Sounds (Kept bound) (build_package w d proposal s)
  unfolding build_package
  build_package-Sound d proposal s h = move-Ends Sounds (Kept bound) _ _ s _ h λ m e.
      elim (Bool-cases (w.builds_escalation d proposal)) [
        | inl built ↦
            rw built
              (move-Ends Sounds (Kept bound) _ _ _ _ h λ m' e'. (h, λ a. ground (arith, a, e')))
        | inr failed ↦
            rw failed
              (move-Ends Sounds (Kept bound) _ _ _ _ h λ m' e'. (h, λ a. ground (arith, a, e')))
      ]

  conclude-Sound :
      (o : PolicyOutcome) (d : PolicyDecision) (proposal : RepairProposal) (ev : EvaluationResult)
      (s : RunState)
      → Within bound s
      → s.proposal ≡ some proposal
      → s.evaluation ≡ some ev
      → ev.passed ≡ true
      → d ≡ decision_for w proposal ev s.tool_risks (length s.attempts)
      → d.outcome ≡ o
      → Ends Sounds (Kept bound) (conclude w o d proposal s)
  unfolding conclude
  conclude-Sound approve d proposal ev s h p e passed asked o =
      move-Ends Sounds (Kept bound) _ _ s _ h λ m at. (
        h,
        λ _. (
          proposal,
          ev,
          p,
          e,
          passed,
          ap some asked,
          ap (λ x. is_approve x.outcome) (sym asked) ∙ ap is_approve o,
        ),
      )
  conclude-Sound reject d proposal ev s h p e passed asked o =
      move-Ends Sounds (Kept bound) _ _ s _ h λ m at. (h, λ a. ground (arith, a, at))
  conclude-Sound escalate d proposal ev s h p e passed asked o =
      move-Ends Sounds (Kept bound) _ _ s _ h λ m at. build_package-Sound d proposal _ h

  run_policy_gate-Sound :
      (proposal : RepairProposal) (ev : EvaluationResult) (s : RunState)
      → Within bound s
      → s.proposal ≡ some proposal
      → s.evaluation ≡ some ev
      → ev.passed ≡ true
      → Ends Sounds (Kept bound) (run_policy_gate w proposal ev s)
  unfolding run_policy_gate
  run_policy_gate-Sound proposal ev s h p e passed =
      move-Ends Sounds (Kept bound) _ _ s _ h
        λ m at. conclude-Sound _ _ proposal ev _ h p e passed refl refl

  -- What an attempt leaves: a sound result, or one more attempt.
  abbrev Goes : ℕ → Option FoundationResult → RunState → Type 0
  Goes count none s = length s.attempts ≡ count
  Goes count (some r) s = Sound r

  decide_retry-Sound :
      (ev : EvaluationResult) (s : RunState)
      → Within bound s
      → Ends (Goes (length s.attempts)) (Kept bound) (decide_retry w ev s)
  unfolding decide_retry
  decide_retry-Sound ev s h = move-Ends (Goes (length s.attempts)) (Kept bound) _ _ s _ h λ m at.
      elim (Bool-cases (decide w.retry_budget s.attempts ev).should_retry) [
        | inl again ↦
            rw again (move-Ends (Goes (length s.attempts)) (Kept bound) _ _ _ _ h λ m' at'. refl)
        | inr stops ↦ rw stops (
            move-Ends (Goes (length s.attempts)) (Kept bound) _ _ _ _ h
              λ m' at'. (h, λ a. ground (arith, a, at')))
      ]

  judge-Sound :
      (b : Bool) (proposal : RepairProposal) (ev : EvaluationResult) (s : RunState)
      → Within bound s
      → s.proposal ≡ some proposal
      → s.evaluation ≡ some ev
      → ev.passed ≡ b
      → Ends (Goes (length s.attempts)) (Kept bound) (judge w b proposal ev s)
  unfolding judge
  judge-Sound true proposal ev s h p e b =
      bind-Ends Sounds (Goes (length s.attempts)) (Kept bound) (run_policy_gate w proposal ev) _ s
        (run_policy_gate-Sound proposal ev s h p e b) λ r s' sound. sound
  judge-Sound false proposal ev s h p e b = decide_retry-Sound ev s h

  attempt-Sound :
      (n : ℕ) (s : RunState)
      → length s.attempts + 1 ≤ bound
      → Ends (Goes (length s.attempts + 1)) (Kept bound) (attempt w n s)
  unfolding attempt record_attempt
  attempt-Sound n s h =
      bind-Ends (Prepared (length s.attempts)) (Goes (length s.attempts + 1)) (Kept bound)
        (prepare w n) _ s (prepare-Prepared w bound n s (omega (arith, h)))
        λ (proposal, sandbox, ev) s1 (count, p, e).
          let one_more : length (attempted n proposal sandbox ev s1) ≡ length s.attempts + 1 =
            length-snoc s1.attempts _ ∙ ap (λ k. k + 1) count in
          subst
            (λ k. Ends (Goes k) (Kept bound) (
              judge w ev.passed proposal ev
                (record s1 { attempts = attempted n proposal sandbox ev s1 })))
            one_more
            (judge-Sound ev.passed proposal ev
              (record s1 { attempts = attempted n proposal sandbox ev s1 })
              (subst (λ k. k ≤ bound) (sym one_more) h) p e refl)
    where
      attempted :
          ℕ → RepairProposal → SandboxResult → EvaluationResult → RunState → List AttemptRecord
      attempted n proposal sandbox ev s1 =
          s1.attempts
          ++ build_attempt_record n (w.fingerprints proposal ev sandbox).0
              (w.fingerprints proposal ev sandbox).1 ev sandbox (last? s1.attempts)
            ∷ []

  -- A result of the loop is sound, and no more attempts are made than are left.
  loop-Sound :
      (left n : ℕ) (s : RunState)
      → length s.attempts + left ≤ bound
      → Ends Sounds (Kept bound) (loop w left n s)
  unfolding loop exhausted
  loop-Sound zero n s h = (omega (arith, h), λ a. ground (arith, a))
  loop-Sound (suc left) n s h =
      bind-Ends (Goes (length s.attempts + 1)) Sounds (Kept bound) (attempt w n) _ s
        (attempt-Sound n s (omega (arith, h)))
        λ o s1 goes.
          continue (λ s2 count. loop-Sound left (n + 1) s2 (omega (arith, count, h))) o s1 goes
    where
      continue :
          ((s2 : RunState)
            → length s2.attempts ≡ length s.attempts + 1
            → Ends Sounds (Kept bound) (loop w left (n + 1) s2))
          → (o : Option FoundationResult) (s1 : RunState) → Goes (length s.attempts + 1) o s1
          → Ends Sounds (Kept bound) (
              (elim o as (λ _. M FoundationResult) [ some r ↦ pure r | none ↦ loop w left (n + 1) ])
                s1)
      continue next (some r) s1 sound = sound
      continue next none s1 count = next s1 count

-- An approved run is justified. Whatever the collaborators answer or raise, a run makes at most
-- `max_attempts` attempts, and if it ends in APPROVED then the evaluation that it reports passed and
-- the policy decision that it reports is the one for that proposal, evaluation, tools and number of
-- attempts, and its outcome is APPROVE.
pub run-Sound : {Plan : Type 0} (w : Runner Plan) → Sound w w.retry_budget.max_attempts (run w)
unfolding run crashed
run-Sound w =
    through (loop w w.retry_budget.max_attempts 1 start)
      (loop-Sound w w.retry_budget.max_attempts w.retry_budget.max_attempts 1 start (omega arith))
  where
    through :
        (r : Run FoundationResult)
        → Ends (Sounds w w.retry_budget.max_attempts) (Kept w.retry_budget.max_attempts) r
        → Sound w w.retry_budget.max_attempts
            (elim r as (λ _. FoundationResult) [ ok r s ↦ r | raised c s ↦ crashed w s ])
    through (ok r s) sound = sound
    through (raised c s) h = (h, λ a. ground (arith, a))
