-- ===== src/Examples/Verdict.antt =====
-- Retry decisions and remediation verdicts of ci_failure_orchestrator/foundation/.
use ci_failure_orchestrator.Common.{
  eq_iff, arith, true, false, not, ◌&&◌, [], ◌∷◌, ◌++◌, none, some, ◌≡◌, ◌≢◌, refl, is_empty,
}
use ci_failure_orchestrator.Foundation.Models.{
  RepairProposal, SandboxResult, EvaluationResult, EvaluationCheck, ToolResult,
}
use ci_failure_orchestrator.Foundation.Models as Check
use ci_failure_orchestrator.Foundation.Retry.{AttemptRecord, default_budget, decide, recoverable}
use ci_failure_orchestrator.Foundation.Retry.Decide.{may_retry, decide-may_retry}
use ci_failure_orchestrator.Foundation.Remediation.Evidence.{
  VerificationResult, RemediationState, verified_fixed, ci_green_but_unverified, policy_approved,
  policy_rejected, not_fixed, regression_detected, is_true, is_none, outcome_is, is_verified_fix,
  requirements, policy_satisfied, risk_satisfied, satisfied,
}
use ci_failure_orchestrator.Foundation.Remediation.Decision.{
  decide_remediation, rejections, failures, regressions, reviews, conclude, verified,
}
use ci_failure_orchestrator.Foundation.Remediation.Evidence as Gate
use ci_failure_orchestrator.Foundation.Remediation.Verdict.{decide_remediation-verified}
use ci_failure_orchestrator.Foundation.Remediation.Trail.{LeadsTo, decide_remediation-LeadsTo}

abbrev broken : EvaluationResult
broken = record {
  passed = false;
  patch_applied = true;
  target_verification_passed = false;
  regressions_detected = true;
  forbidden_changes_detected = false;
  checks = record { name = "TARGET_TEST_PASSED"; status = Check.failed } ∷ [];
}

abbrev red : SandboxResult
red = record {
  patch_applied = true;
  command_results = [];
  changed_files = [];
  timeout = false;
  error = none;
}

abbrev first_attempt : AttemptRecord
first_attempt = record {
  attempt_number = 1;
  proposal_fingerprint = "p1";
  failure_fingerprint = "f1";
  evaluation_passed = false;
  patch_applied = true;
  target_passed = true;
  failed_check_count = 2;
  sandbox_error = none;
  disposition = recoverable;
  progress = none;
}

abbrev second_attempt : AttemptRecord
second_attempt = record first_attempt {
  attempt_number = 2;
  proposal_fingerprint = "p2";
  failure_fingerprint = "f2";
}

decide-may_retry_example :
    (decide default_budget ([] ++ first_attempt ∷ []) broken).should_retry
    ≡ may_retry default_budget ([] ++ first_attempt ∷ []) first_attempt broken
decide-may_retry_example = decide-may_retry default_budget [] first_attempt broken

signatures_differ : first_attempt.failure_fingerprint ≢ second_attempt.failure_fingerprint
signatures_differ h =
    ground (arith, eq_iff first_attempt.failure_fingerprint second_attempt.failure_fingerprint)

abbrev fixed : VerificationResult
fixed = record {
  repair_proposed = true;
  patch_applied = true;
  original_failure_reproduced = some true;
  original_failure_resolved = some true;
  targeted_test_passed = some true;
  target_test_missing = false;
  gate = λ g. Gate.passed;
  new_test_failures = [];
  test_count_decreased = some false;
  skipped_tests_increased = some false;
  forbidden_diff_detected = false;
  forbidden_diff_codes = [];
  policy_outcome = some "APPROVE";
  human_approved = false;
  real_ci_passed = some true;
  risk_level = "LOW";
  risk_reasons = [];
}

decide_remediation-verified_example : verified (decide_remediation fixed) ≡ (
    is_verified_fix fixed
    && is_empty fixed.forbidden_diff_codes
    && not (outcome_is fixed.policy_outcome "REJECT"))
decide_remediation-verified_example = decide_remediation-verified fixed

fixed-verified : verified (decide_remediation fixed) ≡ true
unfolding decide_remediation rejections failures regressions reviews conclude is_verified_fix
    requirements satisfied policy_satisfied risk_satisfied
fixed-verified = refl

decide_remediation-LeadsTo_example :
    LeadsTo (decide_remediation fixed).state (decide_remediation fixed).steps
decide_remediation-LeadsTo_example = decide_remediation-LeadsTo fixed
