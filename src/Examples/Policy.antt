-- ===== src/Examples/Policy.antt =====
-- Decisions of the policy gate of ci_failure_orchestrator/foundation/policy.py.
use ci_failure_orchestrator.Common.{
  ◌==◌, String, contains, lower, lower_char, replace_char, starts_with, ends_with, same,
  after_last_slash, is_blank, is_space, codes, true, false, not, ◌&&◌, List, [], ◌∷◌, map, Option,
  some, ◌≡◌, refl, any, all, is_empty, length, ◌≤◌,
}
use ci_failure_orchestrator.Foundation.Models.{
  RepairProposal, EvaluationResult, FailureClassification,
}
use ci_failure_orchestrator.Foundation.Policy.Paths.Files.{
  risk_order, classify_file, max_risk, strip_dot_slash, normalize_path, is_dependency, is_ci,
  is_migration, is_infrastructure, is_auth, is_security, is_test, is_documentation, is_source,
  is_configuration,
}
use ci_failure_orchestrator.Foundation.Policy.Paths.Risk.{
  classify_risk, plain_category, critical_path, before_last_slash, distinct, directories,
  classify_scope,
}
use ci_failure_orchestrator.Foundation.Policy.Defs.{
  IntegrityFinding, PolicyContext, is_approve, default_config, is_valid,
}
use ci_failure_orchestrator.Foundation.Policy.Context.{
  build_policy_context, matching_paths, path_contains_markers, hits, unique_codes, unique_rules,
}
use ci_failure_orchestrator.Foundation.Policy.Engine.{
  classification_escalations, first_escalations, last_escalations, escalations,
  eligible_auto_approve, evaluate_findings, evaluate,
}
use ci_failure_orchestrator.Foundation.Policy.Gate.{
  trusted, clean, evaluate-approve, approve_is_low_risk,
}

abbrev finds_nothing : String → Option (List IntegrityFinding)
finds_nothing patch = some []

abbrev proposal : RepairProposal
proposal = record {
  run_id = "run_1";
  proposal_id = "p1";
  files_changed = "pkg/date.py" ∷ [];
  patch = "@@ -1 +1 @@";
}

abbrev pub passing : EvaluationResult
passing = record {
  passed = true;
  patch_applied = true;
  target_verification_passed = true;
  regressions_detected = false;
  forbidden_changes_detected = false;
  checks = [];
}

abbrev pub sure : Option FailureClassification
sure = some (record { category = "test_failure"; confidence = 900 })

abbrev ctx : PolicyContext
ctx = build_policy_context default_config proposal passing sure [] 1

pub default_valid : is_valid default_config ≡ true
unfolding is_valid contains replace_char
default_valid = refl

evaluate-approve_example : is_approve (evaluate finds_nothing default_config ctx).outcome ≡ (
    ctx.evaluation.passed
    && not (is_empty ctx.changed_files)
    && not (is_blank (codes ctx.proposal.patch))
    && is_empty (matching_paths ctx.changed_files default_config.forbidden_paths)
    && clean finds_nothing ctx.proposal.patch
    && is_empty (escalations default_config ctx [])
    && eligible_auto_approve ctx default_config)
evaluate-approve_example = evaluate-approve finds_nothing default_config ctx default_valid

approved : is_approve (evaluate finds_nothing default_config ctx).outcome ≡ true
unfolding evaluate build_policy_context is_blank matching_paths same normalize_path lower
    replace_char starts_with contains evaluate_findings escalations first_escalations unique_codes
    hits classify_file is_dependency after_last_slash ends_with is_space lower_char
    classification_escalations eligible_auto_approve last_escalations path_contains_markers
    unique_rules before_last_slash classify_risk classify_scope critical_path directories distinct
    is_auth is_ci is_configuration is_documentation is_infrastructure is_migration is_security
    is_source is_test max_risk strip_dot_slash
approved = refl

approve_is_low_risk_example :
    (passing.passed ≡ true)
    × (clean finds_nothing proposal.patch ≡ true)
    × (trusted default_config sure ≡ true)
    × ((risk_order ctx.risk_level == 0) ≡ true)
    × (length proposal.files_changed ≤ 3)
    × (distinct (directories proposal.files_changed) ≤ 2)
    × (all plain_category (map classify_file proposal.files_changed) ≡ true)
    × (any critical_path proposal.files_changed ≡ false)
    × (is_empty (matching_paths proposal.files_changed default_config.forbidden_paths) ≡ true)
    × (is_empty (matching_paths proposal.files_changed default_config.ci_path_prefixes) ≡ true)
    × (is_empty (matching_paths proposal.files_changed default_config.escalation_paths) ≡ true)
    × (path_contains_markers proposal.files_changed default_config.security_path_markers ≡ false)
approve_is_low_risk_example = approve_is_low_risk finds_nothing proposal passing sure [] 1 approved
