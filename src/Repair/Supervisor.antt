-- ===== src/Repair/Supervisor.antt =====
-- The authority that a repair is given: ci_failure_orchestrator/supervisor.py. Costs, floats that are
-- added and compared, count thousandths of a dollar.
use ci_failure_orchestrator.Common.{
  ℕ, String, Bool, true, false, not, ◌||◌, List, [], ◌∷◌, ◌++◌, any, is_empty, when, length, ltb,
  str_eq, if◌then◌else◌,
}
use ci_failure_orchestrator.Repair.Globs.{matches}

pub data RiskLevel : Type 0 where
  low medium high critical : RiskLevel

pub data RepairAuthority : Type 0 where
  autonomous_patch patch_requires_review rca_only deny : RepairAuthority

abbrev pub is_autonomous : RepairAuthority → Bool
is_autonomous autonomous_patch = true
is_autonomous _ = false

abbrev pub is_denied : RepairAuthority → Bool
is_denied deny = true
is_denied _ = false

pub record RetryBudget : Type 0 where
  pub max_attempts : ℕ
  pub max_changed_files : ℕ
  pub max_changed_lines : ℕ
  pub max_cost_usd : ℕ
  pub max_elapsed_seconds : ℕ

pub record RepairRequest : Type 0 where
  pub failure_class : String
  pub changed_paths : List String
  pub predicted_changed_lines : ℕ
  pub attempt : ℕ
  pub cost_spent_usd : ℕ
  pub elapsed_seconds : ℕ
  pub regression_detected : Bool
  pub security_finding : Bool
  pub test_weakening_detected : Bool
  pub unknown_failure : Bool

pub record SupervisorDecision : Type 0 where
  pub risk : RiskLevel
  pub authority : RepairAuthority
  pub allowed : Bool
  pub reasons : List String
  pub required_gates : List String

pub record SupervisorPolicy : Type 0 where
  pub budget : RetryBudget
  pub protected_globs : List String
  pub critical_globs : List String
  pub low_risk_failure_classes : List String

abbrev pub default_policy : SupervisorPolicy
default_policy = record {
  budget = record {
    max_attempts = 3;
    max_changed_files = 8;
    max_changed_lines = 400;
    max_cost_usd = 2000;
    max_elapsed_seconds = 900;
  };
  protected_globs =
      ".github/workflows/*" ∷ "**/migrations/*" ∷ "**/auth/*" ∷ "**/iam/*" ∷ "**/security/*"
      ∷ "infra/*" ∷ "terraform/*" ∷ [];
  critical_globs = "**/*secret*" ∷ "**/*credential*" ∷ "**/*production*" ∷ "**/*prod*" ∷ [];
  low_risk_failure_classes =
      "lint" ∷ "formatting" ∷ "typing" ∷ "deterministic_test_fixture" ∷ "workflow_syntax" ∷ [];
}

unfoldable pub classify_risk : RepairRequest → SupervisorPolicy → RiskLevel
classify_risk r policy =
    if r.security_finding || any (λ path. matches path policy.critical_globs) r.changed_paths
    then critical
    else if any (λ path. matches path policy.protected_globs) r.changed_paths
    then high
    else if r.unknown_failure || not (any (str_eq r.failure_class) policy.low_risk_failure_classes)
    then medium
    else low

-- The reasons that deny a repair before its risk is looked at.
unfoldable pub denials : RepairRequest → RetryBudget → List String
denials r b =
    when r.regression_detected "regression_detected"
    ++ (when r.test_weakening_detected "test_weakening_detected"
        ++ (when (ltb b.max_attempts r.attempt) "retry_budget_exhausted"
            ++ (when (ltb b.max_changed_files (length r.changed_paths))
                  "changed_file_budget_exhausted"
                ++ (when (ltb b.max_changed_lines r.predicted_changed_lines)
                      "changed_line_budget_exhausted"
                    ++ (when (ltb b.max_cost_usd r.cost_spent_usd) "cost_budget_exhausted"
                        ++ when (ltb b.max_elapsed_seconds r.elapsed_seconds)
                            "time_budget_exhausted")))))

-- The decision by risk of a repair that nothing denies.
unfoldable pub by_risk : RiskLevel → SupervisorDecision
by_risk critical = record {
  risk = critical;
  authority = deny;
  allowed = false;
  reasons = "critical_surface" ∷ [];
  required_gates = "security_review" ∷ "human_approval" ∷ [];
}
by_risk high = record {
  risk = high;
  authority = rca_only;
  allowed = true;
  reasons = "protected_surface" ∷ [];
  required_gates = "human_approval" ∷ "full_regression" ∷ "security_gate" ∷ [];
}
by_risk medium = record {
  risk = medium;
  authority = patch_requires_review;
  allowed = true;
  reasons = "nontrivial_change" ∷ [];
  required_gates = "targeted_tests" ∷ "full_regression" ∷ "human_review" ∷ [];
}
by_risk low = record {
  risk = low;
  authority = autonomous_patch;
  allowed = true;
  reasons = "bounded_low_risk_repair" ∷ [];
  required_gates = "targeted_tests" ∷ "full_regression" ∷ "policy_gate" ∷ [];
}

unfoldable pub evaluate_repair : RepairRequest → SupervisorPolicy → SupervisorDecision
unfolding classify_risk denials by_risk
evaluate_repair r policy =
    if is_empty (denials r policy.budget) then by_risk (classify_risk r policy) else record {
      risk = classify_risk r policy;
      authority = deny;
      allowed = false;
      reasons = denials r policy.budget;
      required_gates = "human_escalation" ∷ "root_cause_review" ∷ [];
    }
