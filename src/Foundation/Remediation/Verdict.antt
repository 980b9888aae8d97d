-- ===== src/Foundation/Remediation/Verdict.antt =====
-- What the final state of ci_failure_orchestrator/foundation/remediation.py says of the evidence.
use ci_failure_orchestrator.Common.{
  ℕ, Bool, true, false, not, ◌&&◌, ◌||◌, List, [], ◌∷◌, map, ◌≡◌, refl, inl, inr, arith, is_empty,
  is_empty-append, is_empty-map, emptiness, Bool-cases, test_at, test_at_of_all, ◌∙◌, ap₂,
}
use ci_failure_orchestrator.Foundation.Remediation.Evidence.{
  VerificationResult, GateStatus, Gate, affected_tests, regression_suite, coverage, lint, typecheck,
  security, build, behavioral_invariants, gates, satisfied, is_failed, is_true, is_false, is_none,
  outcome_is, policy_satisfied, risk_satisfied, is_verified_fix, verified_fixed, policy_approved,
  ci_green_but_unverified, requirements, new_test_failure,
}
use ci_failure_orchestrator.Foundation.Remediation.Decision.{
  in_state, failed_gates, rejections, failures, regressions, reviews, decide_remediation, conclude,
  verified,
}

pub no_rejections :
    (v : VerificationResult)
    → is_empty (rejections v) ≡ (
        is_empty v.forbidden_diff_codes
        && not v.forbidden_diff_detected
        && not v.target_test_missing
        && not (is_true v.test_count_decreased)
        && not (is_true v.skipped_tests_increased)
        && not (outcome_is v.policy_outcome "REJECT"))
unfolding rejections
no_rejections v = simp emptiness (ground arith)

no_failures :
    (v : VerificationResult)
    → is_empty (failures v) ≡ (
        v.repair_proposed
        && v.patch_applied
        && not (is_false v.targeted_test_passed)
        && not (is_false v.original_failure_resolved))
unfolding failures
no_failures v = simp emptiness (ground arith)

abbrev none_failed : (Gate → GateStatus) → List Gate → Bool
none_failed status [] = true
none_failed status (g ∷ gs) = not (is_failed (status g)) && none_failed status gs

no_failed_gates :
    (status : Gate → GateStatus) (gs : List Gate)
    → is_empty (failed_gates status gs) ≡ none_failed status gs
unfolding failed_gates
no_failed_gates status [] = refl
no_failed_gates status (g ∷ gs) = simp (emptiness, no_failed_gates status gs)

pub no_regressions :
    (v : VerificationResult)
    → is_empty (regressions v) ≡ (is_empty v.new_test_failures && none_failed v.gate gates)
unfolding regressions
no_regressions v =
    is_empty-append (map new_test_failure v.new_test_failures) (failed_gates v.gate gates)
    ∙ ap₂ ◌&&◌ (is_empty-map new_test_failure v.new_test_failures) (no_failed_gates v.gate gates)

pub no_reviews :
    (v : VerificationResult)
    → is_empty (reviews v)
      ≡ (risk_satisfied v && policy_satisfied v && not (is_false v.real_ci_passed))
unfolding reviews
no_reviews v = simp emptiness (ground arith)

satisfied_not_failed : (s : GateStatus) → satisfied s ≡ true → is_failed s ≡ false
unfolding satisfied
satisfied_not_failed s h = ground arith

module _ (v : VerificationResult) (h : is_verified_fix v ≡ true) where
  required : (n : ℕ) → test_at n (requirements v) ≡ true
  unfolding is_verified_fix
  required n = test_at_of_all n (requirements v) h

  verified_no_failures : is_empty (failures v) ≡ true
  unfolding requirements
  verified_no_failures =
      ground (arith, no_failures v, required 0, required 1, required 3, required 4)

  verified_gate : (g : Gate) → satisfied (v.gate g) ≡ true
  unfolding requirements
  verified_gate affected_tests = required 6
  verified_gate regression_suite = required 7
  verified_gate coverage = required 11
  verified_gate lint = required 12
  verified_gate typecheck = required 13
  verified_gate security = required 14
  verified_gate build = required 15
  verified_gate behavioral_invariants = required 16

  verified_gates : none_failed v.gate gates ≡ true
  verified_gates =
      let sound = λ (g : Gate). satisfied_not_failed (v.gate g) (verified_gate g) in
      rw (
        sound affected_tests,
        sound regression_suite,
        sound coverage,
        sound lint,
        sound typecheck,
        sound security,
        sound build,
        sound behavioral_invariants,
      )

  verified_no_regressions : is_empty (regressions v) ≡ true
  unfolding requirements
  verified_no_regressions = ground (arith, no_regressions v, verified_gates, required 8)

  verified_no_reviews : is_empty (reviews v) ≡ true
  unfolding requirements
  verified_no_reviews = ground (arith, no_reviews v, required 18, required 19, required 20)

  verified_ci : is_none v.real_ci_passed ≡ false
  unfolding requirements
  verified_ci = ground (arith, required 20)

  verified_rejections :
      is_empty (rejections v)
      ≡ (is_empty v.forbidden_diff_codes && not (outcome_is v.policy_outcome "REJECT"))
  unfolding requirements
  verified_rejections =
      ground (arith, no_rejections v, required 5, required 9, required 10, required 17)

-- VERIFIED_FIXED is decided exactly when every piece of required evidence is present and passing, no
-- forbidden-diff code was recorded and the policy outcome is not REJECT.
pub decide_remediation-verified :
    (v : VerificationResult)
    → verified (decide_remediation v) ≡ (
        is_verified_fix v
        && is_empty v.forbidden_diff_codes
        && not (outcome_is v.policy_outcome "REJECT"))
unfolding decide_remediation conclude
decide_remediation-verified v = elim (Bool-cases (is_verified_fix v)) [
  | inl h ↦ ground (
    arith,
    verified_no_failures v h,
    verified_no_regressions v h,
    verified_no_reviews v h,
    verified_ci v h,
    verified_rejections v h,
  )
  | inr h ↦ ground arith
]

-- The states that claim success need the result of real CI: without it neither VERIFIED_FIXED nor
-- CI_GREEN_BUT_UNVERIFIED is decided, and when it failed POLICY_APPROVED is not decided either.
pub real_ci_decides :
    (v : VerificationResult)
    → let d = decide_remediation v in
      ((in_state d verified_fixed || in_state d ci_green_but_unverified)
          && not (is_true v.real_ci_passed)
        ≡ false)
      × (in_state d policy_approved && not (is_none v.real_ci_passed) ≡ false)
unfolding decide_remediation conclude
real_ci_decides v = ground (arith, no_reviews v)
