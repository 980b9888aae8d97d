-- ===== src/Governed/Defs.antt =====
-- The records of ci_failure_orchestrator/governed/models.py that the pipeline reads, with the steps that
-- judge a proposal: SandboxExecutor (governed/sandbox.py), LocalEvaluator (governed/evaluation.py) and
-- PolicyEngine (governed/policy.py). Confidence is in thousandths; texts that are only shown are left out.
use ci_failure_orchestrator.Common.{
  ℕ, String, Bool, true, false, not, ◌&&◌, ◌||◌, List, [], ◌∷◌, map, Option, none, some, any,
  length, is_empty, select, ltb, if◌then◌else◌, str_eq, Chars, codes, starts_with, contains, lower,
  replace_char, is_blank,
}

pub record FailureEvent : Type 0 where
  pub workflow : String
  pub job : String
  pub failed_step : String
  pub message : String
  pub changed_paths : List String
  pub log_excerpt : String

pub record FailureClassification : Type 0 where
  pub failure_class : String
  pub confidence : ℕ
  pub recommended_next_action : String

-- The tools of a plan's steps.
pub record RepairPlan : Type 0 where
  pub tools : List String
  pub expected_verification : List String

pub record RepairProposal : Type 0 where
  pub proposal_id : String
  pub files_affected : List String
  pub proposed_patch : String

pub record SandboxResult : Type 0 where
  pub applied : Bool
  pub timed_out : Bool
  pub error : Option String

pub record EvaluationResult : Type 0 where
  pub passed : Bool
  pub target_check_passed : Bool
  pub regression_free : Bool
  pub policy_safe : Bool

pub data PolicyOutcome : Type 0 where
  approve reject escalate retry : PolicyOutcome

pub data PolicyReason : Type 0 where
  evaluation_failed target_check_failed evaluation_policy_unsafe policy_pass : PolicyReason
  too_many_files : ℕ → PolicyReason
  sensitive_path class_requires_escalation class_not_auto_eligible : String → PolicyReason

pub record PolicyDecision : Type 0 where
  pub outcome : PolicyOutcome
  pub reasons : List PolicyReason

-- `path.replace("\\", "/")`, and with `.lower()`.
abbrev pub slashed : String → Chars
slashed path = replace_char 0x5c b'/' (codes path)

abbrev pub normalized : String → Chars
normalized path = lower (slashed path)

abbrev pub has_marker : List String → String → Bool
has_marker markers path = any (λ m. contains (codes m) (normalized path)) markers

-- `".." in path.replace("\\", "/") or path.startswith("/")`.
unfoldable pub out_of_scope : String → Bool
out_of_scope path = contains (codes "..") (slashed path) || starts_with (codes "/") (codes path)

abbrev rejected : String → SandboxResult
rejected error = record { applied = false; timed_out = false; error = some error }

-- `SandboxExecutor.execute`; `late` says whether the time was up. The error of a path is without the path.
unfoldable pub sandbox_execute : Bool → RepairProposal → SandboxResult
sandbox_execute late p =
    if is_blank (codes p.proposed_patch)
    then rejected "empty_patch"
    else if contains (0 ∷ []) (codes p.proposed_patch)
    then rejected "binary_patch_rejected"
    else if any out_of_scope p.files_affected
    then rejected "path_out_of_scope"
    else record {
      applied = not late;
      timed_out = late;
      error = if late then some "timeout" else none;
    }

abbrev pub no_error : Option String → Bool
no_error none = true
no_error (some _) = false

abbrev pub forbidden_markers : List String
forbidden_markers = ".github/workflows/" ∷ "secret" ∷ "auth/" ∷ []

-- `LocalEvaluator.evaluate`.
unfoldable pub local_evaluate : RepairProposal → SandboxResult → Bool → EvaluationResult
local_evaluate p sandbox target_check_passed =
    let applied = sandbox.applied && no_error sandbox.error in
    let policy_safe = not (any (has_marker forbidden_markers) p.files_affected) in
    let regression_free = applied && not sandbox.timed_out in
    record {
      passed = applied && target_check_passed && policy_safe && regression_free;
      target_check_passed = target_check_passed;
      regression_free = regression_free;
      policy_safe = policy_safe;
    }

-- `SENSITIVE_PATH_MARKERS`.
abbrev pub sensitive_path_markers : List String
sensitive_path_markers =
    ".github/workflows/" ∷ "auth" ∷ "secret" ∷ "permission" ∷ "deploy" ∷ "migration" ∷ "lock"
    ∷ "pyproject.toml" ∷ []

pub record PolicyConfig : Type 0 where
  pub escalate_on_sensitive_paths : Bool
  pub reject_if_evaluation_failed : Bool
  pub max_files_changed : ℕ
  pub allowed_failure_classes_for_auto : List String
  pub always_escalate_classes : List String

abbrev pub default_config : PolicyConfig
default_config = record {
  escalate_on_sensitive_paths = true;
  reject_if_evaluation_failed = true;
  max_files_changed = 20;
  allowed_failure_classes_for_auto =
      "lint_failure" ∷ "type_failure" ∷ "test_failure" ∷ "lint" ∷ "formatting" ∷ "typing"
      ∷ "unit_test_failure" ∷ "TEST_ASSERTION" ∷ "TYPE_ERROR" ∷ "LINT_ERROR" ∷ [];
  always_escalate_classes =
      "unknown" ∷ "UNKNOWN" ∷ "infrastructure_failure" ∷ "network_failure" ∷ "NETWORK_ERROR"
      ∷ "flaky_failure" ∷ "dependency_failure" ∷ "configuration_failure" ∷ "SECURITY_ERROR" ∷ [];
}

abbrev pub listed : String → List String → Bool
listed s = any (str_eq s)

abbrev pub sensitive : List String → List String
sensitive = select (has_marker sensitive_path_markers)

-- `PolicyEngine.evaluate`. Both branches on the confidence of a class that is not eligible are the same.
unfoldable pub policy_evaluate :
    PolicyConfig
    → RepairProposal
    → FailureClassification
    → EvaluationResult
    → List String
    → PolicyDecision
policy_evaluate config p k ev tool_names =
    if config.reject_if_evaluation_failed && not ev.passed
    then record { outcome = retry; reasons = evaluation_failed ∷ [] }
    else if ltb config.max_files_changed (length p.files_affected)
    then record { outcome = reject; reasons = too_many_files (length p.files_affected) ∷ [] }
    else if config.escalate_on_sensitive_paths && not (is_empty (sensitive p.files_affected))
    then record { outcome = escalate; reasons = map sensitive_path (sensitive p.files_affected) }
    else if listed k.failure_class config.always_escalate_classes
    then record { outcome = escalate; reasons = class_requires_escalation k.failure_class ∷ [] }
    else if not (listed k.failure_class config.allowed_failure_classes_for_auto)
    then record { outcome = escalate; reasons = class_not_auto_eligible k.failure_class ∷ [] }
    else if listed "test_runner" tool_names && not ev.target_check_passed
    then record { outcome = retry; reasons = target_check_failed ∷ [] }
    else if not ev.policy_safe
    then record { outcome = escalate; reasons = evaluation_policy_unsafe ∷ [] }
    else record { outcome = approve; reasons = policy_pass ∷ [] }
