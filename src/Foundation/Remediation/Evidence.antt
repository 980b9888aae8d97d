-- ===== src/Foundation/Remediation/Evidence.antt =====
-- States, gates and evidence of ci_failure_orchestrator/foundation/remediation.py, and what of them a
-- verified fix requires.
use ci_failure_orchestrator.Common.{
  ℕ, String, Bool, true, false, not, ◌||◌, List, [], ◌∷◌, ◌++◌, Option, none, some, all, when,
  is_empty, str_eq,
}

pub data RemediationState : Type 0 where
  failure_received failure_reproduced repair_proposed patch_applied targeted_validation_passed
        regression_validation_passed policy_approved ci_green_but_unverified verified_fixed
        regression_detected policy_rejected human_review_required not_fixed :
      RemediationState

-- The place of a state in its declaration, by which states are compared.
abbrev pub ordinal : RemediationState → ℕ
ordinal failure_received = 0
ordinal failure_reproduced = 1
ordinal repair_proposed = 2
ordinal patch_applied = 3
ordinal targeted_validation_passed = 4
ordinal regression_validation_passed = 5
ordinal policy_approved = 6
ordinal ci_green_but_unverified = 7
ordinal verified_fixed = 8
ordinal regression_detected = 9
ordinal policy_rejected = 10
ordinal human_review_required = 11
ordinal not_fixed = 12

pub data GateStatus : Type 0 where
  passed failed failed_preexisting not_run waived : GateStatus

-- `GateStatus.satisfied`.
unfoldable pub satisfied : GateStatus → Bool
satisfied passed = true
satisfied waived = true
satisfied _ = false

abbrev pub is_failed : GateStatus → Bool
is_failed failed = true
is_failed _ = false

-- `status in (GateStatus.NOT_RUN, GateStatus.FAILED_PREEXISTING)`.
abbrev pub cannot_vouch : GateStatus → Bool
cannot_vouch not_run = true
cannot_vouch failed_preexisting = true
cannot_vouch _ = false

pub data MergeRequirement : Type 0 where
  automatic_verification_allowed human_approval_before_merge human_review_before_merge blocked :
      MergeRequirement

-- `_GATES`.
pub data Gate : Type 0 where
  affected_tests regression_suite coverage lint typecheck security build behavioral_invariants :
      Gate

abbrev pub gates : List Gate
gates =
    affected_tests ∷ regression_suite ∷ coverage ∷ lint ∷ typecheck ∷ security ∷ build
    ∷ behavioral_invariants ∷ []

-- The fields with a default of `None` are optional; the gates are one function.
pub record VerificationResult : Type 0 where
  pub repair_proposed : Bool
  pub patch_applied : Bool
  pub original_failure_reproduced : Option Bool
  pub original_failure_resolved : Option Bool
  pub targeted_test_passed : Option Bool
  pub target_test_missing : Bool
  pub gate : Gate → GateStatus
  pub new_test_failures : List String
  pub test_count_decreased : Option Bool
  pub skipped_tests_increased : Option Bool
  pub forbidden_diff_detected : Bool
  pub forbidden_diff_codes : List String
  pub policy_outcome : Option String
  pub human_approved : Bool
  pub real_ci_passed : Option Bool
  pub risk_level : String
  pub risk_reasons : List String

-- `x is True`, `x is False`, `x is None`; a bare `x` in a test is `x is True`.
abbrev pub is_true : Option Bool → Bool
is_true (some true) = true
is_true _ = false

abbrev pub is_false : Option Bool → Bool
is_false (some false) = true
is_false _ = false

abbrev pub is_none : Option Bool → Bool
is_none none = true
is_none _ = false

abbrev pub outcome_is : Option String → String → Bool
outcome_is none o = false
outcome_is (some p) o = str_eq p o

-- `_policy_satisfied`.
unfoldable pub policy_satisfied : VerificationResult → Bool
policy_satisfied v = outcome_is v.policy_outcome "APPROVE" || v.human_approved

-- `_risk_satisfied`: LOW and MEDIUM of diff_risk.py.
unfoldable pub risk_satisfied : VerificationResult → Bool
risk_satisfied v = str_eq v.risk_level "LOW" || str_eq v.risk_level "MEDIUM" || v.human_approved

-- The tests that `is_verified_fix` joins by `all`.
unfoldable pub requirements : VerificationResult → List Bool
requirements v =
    v.repair_proposed
    ∷ v.patch_applied
    ∷ is_true v.original_failure_reproduced
    ∷ is_true v.original_failure_resolved
    ∷ is_true v.targeted_test_passed
    ∷ not v.target_test_missing
    ∷ satisfied (v.gate affected_tests)
    ∷ satisfied (v.gate regression_suite)
    ∷ is_empty v.new_test_failures
    ∷ is_false v.test_count_decreased
    ∷ not (is_true v.skipped_tests_increased)
    ∷ satisfied (v.gate coverage)
    ∷ satisfied (v.gate lint)
    ∷ satisfied (v.gate typecheck)
    ∷ satisfied (v.gate security)
    ∷ satisfied (v.gate build)
    ∷ satisfied (v.gate behavioral_invariants)
    ∷ not v.forbidden_diff_detected
    ∷ policy_satisfied v
    ∷ risk_satisfied v
    ∷ is_true v.real_ci_passed
    ∷ []

unfoldable pub is_verified_fix : VerificationResult → Bool
is_verified_fix v = all (λ b. b) (requirements v)

pub data Reason : Type 0 where
  forbidden_diff target_test_missing_after_patch test_count_decreased skipped_tests_increased
        policy_rejected no_applied_repair targeted_validation_failed original_failure_not_resolved
        real_ci_failed_after_local_verification awaiting_real_ci_verification
        real_ci_passed_but_evidence_incomplete all_verification_evidence_passed :
      Reason
  forbidden_code new_test_failure risk risk_reason policy : String → Reason
  regressed : Gate → Reason

pub data Evidence : Type 0 where
  original_failure_reproduced original_failure_resolved targeted_test_passed test_count_comparison
        real_ci_passed :
      Evidence
  gate_status : Gate → GateStatus → Evidence

unfoldable pub unvouched : (Gate → GateStatus) → List Gate → List Evidence
unvouched status [] = []
unvouched status (g ∷ gs) =
    when (cannot_vouch (status g)) (gate_status g (status g)) ++ unvouched status gs

unfoldable pub missing_evidence : VerificationResult → List Evidence
unfolding unvouched
missing_evidence v =
    when (not (is_true v.original_failure_reproduced)) original_failure_reproduced
    ++ (when (is_none v.original_failure_resolved) original_failure_resolved
        ++ (when (is_none v.targeted_test_passed) targeted_test_passed
            ++ (when (is_none v.test_count_decreased) test_count_comparison
                ++ (unvouched v.gate gates ++ when (is_none v.real_ci_passed) real_ci_passed))))
