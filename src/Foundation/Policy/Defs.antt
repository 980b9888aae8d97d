-- ===== src/Foundation/Policy/Defs.antt =====
-- The data and the configuration of the policy gate (ci_failure_orchestrator/foundation/policy.py).
use ci_failure_orchestrator.Common.{
  ℕ, String, codes, contains, replace_char, Bool, true, false, not, ◌&&◌, ◌||◌, List, [], ◌∷◌, ◌++◌,
  Option, any, leb, str_eq,
}
use ci_failure_orchestrator.Foundation.Models.{
  ToolRiskLevel, FailureClassification, RepairProposal, EvaluationResult,
}
use ci_failure_orchestrator.Foundation.Policy.Paths.Files.{
  FileCategory, source, test, documentation, ChangeScope, GovernanceRiskLevel, low,
}

pub data PolicyOutcome : Type 0 where
  approve reject escalate : PolicyOutcome

abbrev pub is_approve : PolicyOutcome → Bool
is_approve approve = true
is_approve _ = false

pub data IntegritySeverity : Type 0 where
  rejecting escalating : IntegritySeverity

-- A finding of `analyze_patch`: its code and the severity of that code.
pub record IntegrityFinding : Type 0 where
  pub code : String
  pub severity : IntegritySeverity

abbrev pub is_rejecting : IntegrityFinding → Bool
is_rejecting f = elim f.severity [ rejecting ↦ true | escalating ↦ false ]

abbrev pub is_escalating : IntegrityFinding → Bool
is_escalating f = not (is_rejecting f)

-- The rule IDs POL-001 to POL-019, by their names.
pub data Rule : Type 0 where
  evaluation_must_pass forbidden_path_rule security_sensitive ci_workflow low_risk_auto_approve
        default_escalation dependency_change restricted_tool auth_change broad_scope
        high_retry_count invalid_proposal engine_failure failure_category_rule low_confidence
        escalation_path infra_or_migration verification_weakened verification_change_review :
      Rule

abbrev pub rule_number : Rule → ℕ
rule_number evaluation_must_pass = 1
rule_number forbidden_path_rule = 2
rule_number security_sensitive = 3
rule_number ci_workflow = 4
rule_number low_risk_auto_approve = 5
rule_number default_escalation = 6
rule_number dependency_change = 7
rule_number restricted_tool = 8
rule_number auth_change = 9
rule_number broad_scope = 10
rule_number high_retry_count = 11
rule_number invalid_proposal = 12
rule_number engine_failure = 13
rule_number failure_category_rule = 14
rule_number low_confidence = 15
rule_number escalation_path = 16
rule_number infra_or_migration = 17
rule_number verification_weakened = 18
rule_number verification_change_review = 19

pub data Reason : Type 0 where
  evaluation_failed proposal_invalid forbidden_path classification_missing
        low_classification_confidence auth_code_modified security_sensitive_path
        security_category_file ci_workflow_modified dependency_manifest_or_lockfile
        infra_or_migration_file escalation_path_prefix restricted_tool_with_non_small_scope
        broad_change_scope many_attempts unknown_file_category low_risk default_conservative
        engine_error :
      Reason
  weakened verification_change failure_category : String → Reason

pub record PolicyDecision : Type 0 where
  pub outcome : PolicyOutcome
  pub reasons : List Reason
  pub matched_rules : List Rule
  pub violations : List Rule
  pub risk_level : GovernanceRiskLevel

pub record PolicyContext : Type 0 where
  pub proposal : RepairProposal
  pub evaluation : EvaluationResult
  pub classification : Option FailureClassification
  pub changed_files : List String
  pub tool_risk_levels : List ToolRiskLevel
  pub attempt_count : ℕ
  pub file_categories : List FileCategory
  pub change_scope : ChangeScope
  pub risk_level : GovernanceRiskLevel

-- The configuration fields that the engine reads; a confidence counts thousandths.
pub record PolicyConfig : Type 0 where
  pub default_outcome : PolicyOutcome
  pub forbidden_paths : List String
  pub escalation_paths : List String
  pub security_path_markers : List String
  pub ci_path_prefixes : List String
  pub auto_approve_max_files : ℕ
  pub auto_approve_categories : List FileCategory
  pub auto_approve_risk_levels : List GovernanceRiskLevel
  pub escalate_on_restricted_tools : Bool
  pub escalate_when_attempts_at_max : Bool
  pub max_attempts_for_escalation : ℕ
  pub small_scope_max_files : ℕ
  pub moderate_scope_max_files : ℕ
  pub escalation_failure_categories : List String
  pub min_classification_confidence : ℕ

-- `PolicyConfig()`.
abbrev pub default_config : PolicyConfig
default_config = record {
  default_outcome = escalate;
  forbidden_paths = ".env" ∷ "secrets/" ∷ ".git/" ∷ "id_rsa" ∷ [];
  escalation_paths = ".github/workflows/" ∷ "auth/" ∷ "infra/" ∷ "migrations/" ∷ "deploy/" ∷ [];
  security_path_markers =
      "auth/" ∷ "authorization" ∷ "permission" ∷ "secret" ∷ "crypt" ∷ "oauth" ∷ "jwt" ∷ "credential"
      ∷ [];
  ci_path_prefixes =
      ".github/workflows/" ∷ "Jenkinsfile" ∷ "azure-pipelines.yml" ∷ ".gitlab-ci.yml" ∷ [];
  auto_approve_max_files = 3;
  auto_approve_categories = source ∷ test ∷ documentation ∷ [];
  auto_approve_risk_levels = low ∷ [];
  escalate_on_restricted_tools = true;
  escalate_when_attempts_at_max = false;
  max_attempts_for_escalation = 3;
  small_scope_max_files = 3;
  moderate_scope_max_files = 8;
  escalation_failure_categories =
      "dependency_failure" ∷ "infrastructure_failure" ∷ "network_failure" ∷ "unknown"
      ∷ "security_scan_failure" ∷ "timeout_failure" ∷ "environment_failure" ∷ [];
  min_classification_confidence = 600;
}

-- `not p or ".." in p.replace("\\", "/")`.
malformed : String → Bool
malformed p = str_eq p "" || contains (codes "..") (replace_char b'\\' b'/' (codes p))

-- `__post_init__`: a configuration that fails this test raises `ValueError`.
unfoldable pub is_valid : PolicyConfig → Bool
unfolding malformed
is_valid cfg =
    not (is_approve cfg.default_outcome)
    && leb 1 cfg.auto_approve_max_files
    && leb 1 cfg.small_scope_max_files
    && leb 1 cfg.moderate_scope_max_files
    && leb cfg.small_scope_max_files cfg.moderate_scope_max_files
    && leb 1 cfg.max_attempts_for_escalation
    && leb cfg.min_classification_confidence 1000
    && not (any malformed (cfg.forbidden_paths ++ cfg.escalation_paths))
