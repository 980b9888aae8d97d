-- ===== src/Examples/Incidents.antt =====
-- Incidents of ci_failure_orchestrator/repair_state_machine.py and decisions of its supervisor.
use ci_failure_orchestrator.Common.{
  String, codes, true, false, not, ◌&&◌, ◌||◌, List, [], ◌∷◌, any, last?, length, ◌≡◌, refl, str_eq,
  starts_with, replace_char,
}
use ci_failure_orchestrator.Repair.Globs.{matches}
use ci_failure_orchestrator.Foundation.Policy.Paths.Files.{strip_dot_slash}
use ci_failure_orchestrator.Repair.Supervisor.{
  SupervisorDecision, RepairRequest, autonomous_patch, low, default_policy, is_autonomous,
  is_denied, evaluate_repair,
}
use ci_failure_orchestrator.Repair.Authority.{within_budget, touches, evaluate_repair_exact}
use ci_failure_orchestrator.Repair.Incident.{
  green, is, VerificationResult, WorkerResult, verified_state, Payload, start, Operation, plan,
  dispatch, accept, verify, operate, operate_all, transition, planned_state,
  verify_transition_chain,
}
use ci_failure_orchestrator.Repair.Green.{is_success, turned_green, green_is_verified}
use ci_failure_orchestrator.Repair.Chain.{history_verifies}

abbrev sixty_four : String
sixty_four = "0123456789abcdef0123456789abcdef0123456789abcdef0123456789abcdef"

abbrev digest_of : Payload → String
digest_of p = sixty_four

digest_length : (p : Payload) → length (codes (digest_of p)) ≡ 64
digest_length p = refl

abbrev lint_fix : RepairRequest
lint_fix = record {
  failure_class = "lint";
  changed_paths = "pkg/date.py" ∷ [];
  predicted_changed_lines = 4;
  attempt = 1;
  cost_spent_usd = 0;
  elapsed_seconds = 10;
  regression_detected = false;
  security_finding = false;
  test_weakening_detected = false;
  unknown_failure = false;
}

evaluate_repair_exact_example :
    (is_autonomous (evaluate_repair lint_fix default_policy).authority ≡ (
      within_budget lint_fix default_policy.budget
      && not lint_fix.security_finding
      && not (touches default_policy.critical_globs lint_fix)
      && not (touches default_policy.protected_globs lint_fix)
      && not lint_fix.unknown_failure
      && any (str_eq lint_fix.failure_class) default_policy.low_risk_failure_classes))
    × (is_denied (evaluate_repair lint_fix default_policy).authority ≡ (
        not (within_budget lint_fix default_policy.budget)
        || lint_fix.security_finding
        || touches default_policy.critical_globs lint_fix))
    × ((evaluate_repair lint_fix default_policy).allowed
        ≡ not (is_denied (evaluate_repair lint_fix default_policy).authority))
evaluate_repair_exact_example = evaluate_repair_exact lint_fix default_policy

-- Paths that the default globs find, and paths that they miss.
nested_auth : matches "pkg/auth/login.py" default_policy.protected_globs ≡ true
unfolding matches starts_with strip_dot_slash replace_char
nested_auth = refl

root_auth : matches "auth/login.py" default_policy.protected_globs ≡ false
unfolding matches starts_with strip_dot_slash replace_char
root_auth = refl

root_secret : matches "secrets.env" default_policy.critical_globs ≡ false
unfolding matches starts_with strip_dot_slash replace_char
root_secret = refl

abbrev permitted : SupervisorDecision
permitted = record {
  risk = low;
  authority = autonomous_patch;
  allowed = true;
  reasons = "bounded_low_risk_repair" ∷ [];
  required_gates = [];
}

abbrev patched : WorkerResult
patched = record {
  patch_proposed = true;
  cost_usd = 100;
  regression_detected = false;
  test_weakening_detected = false;
  security_finding = false;
}

abbrev all_green : VerificationResult
all_green = record {
  targeted_tests_passed = true;
  full_regression_passed = true;
  policy_gate_passed = true;
  ci_green = true;
  security_gate_passed = true;
  test_weakening_detected = false;
  regression_detected = false;
}

abbrev repaired : List Operation
repaired = plan permitted ∷ dispatch autonomous_patch "k1" ∷ accept patched ∷ verify all_green ∷ []

repaired-green : is (operate_all digest_of repaired start).state green ≡ true
unfolding operate_all operate transition planned_state verified_state
repaired-green = refl

green_is_verified_example :
    (any is_success repaired ≡ true)
    × (turned_green (last? (operate_all digest_of repaired start).transitions) ≡ true)
green_is_verified_example = green_is_verified digest_of repaired repaired-green

history_verifies_example :
    verify_transition_chain (operate_all digest_of repaired start).transitions ≡ true
history_verifies_example = history_verifies digest_of digest_length repaired
