-- ===== src/Foundation/Remediation/Decision.antt =====
-- `decide_remediation` of ci_failure_orchestrator/foundation/remediation.py.
use ci_failure_orchestrator.Common.{
  Bool, not, ◌&&◌, ◌||◌, List, [], ◌∷◌, ◌++◌, map, none, some, when, is_empty, last?, ◌==◌, str_eq,
  if◌then◌else◌,
}
use ci_failure_orchestrator.Foundation.Remediation.Evidence.{
  Evidence, Gate, GateStatus, MergeRequirement, Reason, RemediationState, VerificationResult,
  affected_tests, all_verification_evidence_passed, automatic_verification_allowed,
  awaiting_real_ci_verification, blocked, ci_green_but_unverified, failure_received,
  failure_reproduced, forbidden_code, forbidden_diff, gates, human_approval_before_merge,
  human_review_before_merge, human_review_required, is_failed, is_false, is_none, is_true,
  is_verified_fix, missing_evidence, new_test_failure, no_applied_repair, not_fixed, ordinal,
  original_failure_not_resolved, outcome_is, patch_applied, policy, policy_approved,
  policy_rejected, policy_satisfied, real_ci_failed_after_local_verification,
  real_ci_passed_but_evidence_incomplete, regressed, regression_detected, regression_suite,
  regression_validation_passed, repair_proposed, risk, risk_reason, risk_satisfied, satisfied,
  skipped_tests_increased, target_test_missing_after_patch, targeted_validation_failed,
  targeted_validation_passed, test_count_decreased, verified_fixed,
}

-- `_trail` before its last step, without the first one.
unfoldable pub later_stages : VerificationResult → List RemediationState
later_stages v =
    let targeted = is_true v.targeted_test_passed && is_true v.original_failure_resolved in
    let regression =
      satisfied (v.gate regression_suite)
      && satisfied (v.gate affected_tests)
      && is_empty v.new_test_failures in
    when (is_true v.original_failure_reproduced) failure_reproduced
    ++ (when v.repair_proposed repair_proposed
        ++ (when v.patch_applied patch_applied
            ++ (when targeted targeted_validation_passed
                ++ (when (targeted && regression) regression_validation_passed
                    ++ when (policy_satisfied v && not v.forbidden_diff_detected)
                        policy_approved))))

unfoldable pub stages : VerificationResult → List RemediationState
unfolding later_stages
stages v = failure_received ∷ later_stages v

-- `_trail`.
unfoldable pub trail : VerificationResult → RemediationState → List RemediationState
unfolding stages
trail v final = elim (last? (stages v)) [
  | none ↦ stages v
  | some s ↦ if ordinal s == ordinal final then stages v else stages v ++ final ∷ []
]

pub record RemediationDecision : Type 0 where
  pub state : RemediationState
  pub reasons : List Reason
  pub missing : List Evidence
  pub merge_requirement : MergeRequirement
  pub steps : List RemediationState

-- `_merge_requirement_for_risk`.
unfoldable pub merge_requirement_for_risk : VerificationResult → MergeRequirement
merge_requirement_for_risk v =
    if str_eq v.risk_level "LOW" && not v.human_approved
    then automatic_verification_allowed
    else human_approval_before_merge

-- The reasons of the four early returns of `decide_remediation`.
unfoldable pub rejections : VerificationResult → List Reason
rejections v =
    map forbidden_code v.forbidden_diff_codes
    ++ (when (v.forbidden_diff_detected && is_empty v.forbidden_diff_codes) forbidden_diff
        ++ (when v.target_test_missing target_test_missing_after_patch
            ++ (when (is_true v.test_count_decreased) test_count_decreased
                ++ (when (is_true v.skipped_tests_increased) skipped_tests_increased
                    ++ when (outcome_is v.policy_outcome "REJECT") policy_rejected))))

unfoldable pub failures : VerificationResult → List Reason
failures v =
    when (not v.repair_proposed || not v.patch_applied) no_applied_repair
    ++ (when (is_false v.targeted_test_passed) targeted_validation_failed
        ++ when (is_false v.original_failure_resolved) original_failure_not_resolved)

unfoldable pub failed_gates : (Gate → GateStatus) → List Gate → List Reason
failed_gates status [] = []
failed_gates status (g ∷ gs) = when (is_failed (status g)) (regressed g) ++ failed_gates status gs

unfoldable pub regressions : VerificationResult → List Reason
unfolding failed_gates
regressions v = map new_test_failure v.new_test_failures ++ failed_gates v.gate gates

-- `risk_{level.lower()}` and `policy_{outcome.lower()}` are the constructors `risk` and `policy` over
-- the text itself; "missing" stands for an absent outcome.
unfoldable pub reviews : VerificationResult → List Reason
unfolding policy_satisfied risk_satisfied
reviews v =
    (if risk_satisfied v then [] else risk v.risk_level ∷ map risk_reason v.risk_reasons)
    ++ (when (not (policy_satisfied v))
          (policy (elim v.policy_outcome [ some o ↦ o | none ↦ "missing" ]))
        ++ when (is_false v.real_ci_passed) real_ci_failed_after_local_verification)

unfoldable pub conclude :
    VerificationResult → RemediationState → List Reason → MergeRequirement → RemediationDecision
unfolding missing_evidence trail
conclude v s reasons merge = record {
  state = s;
  reasons = reasons;
  missing = missing_evidence v;
  merge_requirement = merge;
  steps = trail v s;
}

unfoldable pub decide_remediation : VerificationResult → RemediationDecision
decide_remediation v =
    if not (is_empty (rejections v))
    then conclude v policy_rejected (rejections v) blocked
    else if not (is_empty (failures v))
    then conclude v not_fixed (failures v) blocked
    else if not (is_empty (regressions v))
    then conclude v regression_detected (regressions v) blocked
    else if not (is_empty (reviews v))
    then conclude v human_review_required (reviews v) human_review_before_merge
    else if is_none v.real_ci_passed
    then conclude v policy_approved (awaiting_real_ci_verification ∷ [])
        (merge_requirement_for_risk v)
    else if not (is_verified_fix v)
    then conclude v ci_green_but_unverified (real_ci_passed_but_evidence_incomplete ∷ [])
        human_review_before_merge
    else conclude v verified_fixed (all_verification_evidence_passed ∷ [])
        (merge_requirement_for_risk v)

-- `RemediationDecision.verified`.
abbrev pub verified : RemediationDecision → Bool
verified d = ordinal d.state == ordinal verified_fixed

abbrev pub in_state : RemediationDecision → RemediationState → Bool
in_state d s = ordinal d.state == ordinal s
