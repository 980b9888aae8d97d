-- ===== src/Foundation/Models.antt =====
-- The records that the stages of a foundation run pass on: ci_failure_orchestrator/foundation/models.py.
-- Left out are the fields that no decision reads: time stamps, schema versions, identifiers of the
-- run, free-text details and the evidence lines of an evaluation.
use ci_failure_orchestrator.Common.{ℕ, String, Bool, true, false, List, Option}

pub data ToolRiskLevel : Type 0 where
  read_only safe_write restricted : ToolRiskLevel

pub data CheckStatus : Type 0 where
  passed failed not_run unavailable skipped : CheckStatus

-- `status.value == "FAILED"`.
abbrev pub is_failed : CheckStatus → Bool
is_failed failed = true
is_failed _ = false

-- `confidence` is a float in [0, 1] that is only compared: a number of thousandths here.
pub record FailureClassification : Type 0 where
  pub category : String
  pub confidence : ℕ

pub record ToolResult : Type 0 where
  pub tool_name : String
  pub success : Bool
  -- `metadata.get("step")`
  pub step : Option String

pub record RepairProposal : Type 0 where
  pub run_id : String
  pub proposal_id : String
  pub files_changed : List String
  pub patch : String

pub record SandboxResult : Type 0 where
  pub patch_applied : Bool
  pub command_results : List ToolResult
  pub changed_files : List String
  pub timeout : Bool
  pub error : Option String

pub record EvaluationCheck : Type 0 where
  pub name : String
  pub status : CheckStatus

pub record EvaluationResult : Type 0 where
  pub passed : Bool
  pub patch_applied : Bool
  pub target_verification_passed : Bool
  pub regressions_detected : Bool
  pub forbidden_changes_detected : Bool
  pub checks : List EvaluationCheck
