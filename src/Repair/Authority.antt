-- ===== src/Repair/Authority.antt =====
-- To which repairs ci_failure_orchestrator/supervisor.py gives which authority.
use ci_failure_orchestrator.Common.{
  String, Bool, not, ◌&&◌, ◌||◌, List, any, is_empty, length, leb, str_eq, emptiness, ◌≡◌, arith,
}
use ci_failure_orchestrator.Repair.Globs.{matches}
use ci_failure_orchestrator.Repair.Supervisor.{
  RepairRequest, RetryBudget, SupervisorPolicy, is_autonomous, is_denied, classify_risk, denials,
  by_risk, evaluate_repair,
}

-- No evidence against the repair, and every budget kept.
abbrev pub within_budget : RepairRequest → RetryBudget → Bool
within_budget r b =
    not r.regression_detected
    && not r.test_weakening_detected
    && leb r.attempt b.max_attempts
    && leb (length r.changed_paths) b.max_changed_files
    && leb r.predicted_changed_lines b.max_changed_lines
    && leb r.cost_spent_usd b.max_cost_usd
    && leb r.elapsed_seconds b.max_elapsed_seconds

abbrev pub touches : List String → RepairRequest → Bool
touches globs r = any (λ path. matches path globs) r.changed_paths

no_denials : (r : RepairRequest) (b : RetryBudget) → is_empty (denials r b) ≡ within_budget r b
unfolding denials
no_denials r b = simp emptiness (ground arith)

-- A repair may be made autonomously exactly when there is no regression, no weakened test and no
-- security finding, every budget is kept, no path is critical or protected, and its failure is
-- known and of a low-risk class. It is denied exactly for a regression, a weakened test, an
-- exceeded budget, a security finding or a critical path, and it is allowed exactly when it is not
-- denied.
pub evaluate_repair_exact :
    (r : RepairRequest) (policy : SupervisorPolicy)
    → (is_autonomous (evaluate_repair r policy).authority ≡ (
        within_budget r policy.budget
        && not r.security_finding
        && not (touches policy.critical_globs r)
        && not (touches policy.protected_globs r)
        && not r.unknown_failure
        && any (str_eq r.failure_class) policy.low_risk_failure_classes))
      × (is_denied (evaluate_repair r policy).authority ≡ (
          not (within_budget r policy.budget)
          || r.security_finding
          || touches policy.critical_globs r))
      × ((evaluate_repair r policy).allowed ≡ not (is_denied (evaluate_repair r policy).authority))
unfolding evaluate_repair classify_risk by_risk
evaluate_repair_exact r policy = (
  ground (arith, no_denials r policy.budget),
  ground (arith, no_denials r policy.budget),
  ground (arith, no_denials r policy.budget),
)
