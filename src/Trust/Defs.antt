-- ===== src/Trust/Defs.antt =====
-- The data of trust_gateway.py, RetryBudget and ExecutionEvaluator. Costs are thousandths and no NaN. Scores, and the texts
-- that are only shown, are left out.
use ci_failure_orchestrator.Common.{
  ℕ, ◌+◌, ◌-◌, String, Bool, true, false, not, ◌&&◌, ◌||◌, List, [], ◌∷◌, Option, none, some, any,
  is_empty, ltb, leb, if◌then◌else◌, str_eq,
}
use ci_failure_orchestrator.Trust.Machine.{GatewayState}

pub data ℤ : Type 0 where
  pos negsuc : ℕ → ℤ

pub record RepairProposal : Type 0 where
  pub proposal_id : String
  pub tool : String
  pub operation : String
  pub arguments : List (String × String)
  pub estimated_cost : ℤ
  pub reason_for_retry : Option String
  pub changed_assumption : Option String

pub data TrustDecision : Type 0 where
  allow deny require_approval : TrustDecision

abbrev pub is_allow : TrustDecision → Bool
is_allow allow = true
is_allow _ = false

pub record PolicyResult : Type 0 where
  pub decision : TrustDecision
  pub rule_id : String

pub record ToolExecutionResult : Type 0 where
  pub command_success : Bool
  pub changed_files : List String

pub record EvaluationResult : Type 0 where
  pub success : Bool
  pub checks : List (String × Bool)
  pub failure_reason : Option String

pub record RetryBudget : Type 0 where
  pub max_attempts : ℕ
  pub max_total_cost : ℕ
  pub attempts : ℕ
  pub total_cost : ℕ

-- `RetryBudget.consume`, whether the time is up: the answer and the budget, or ValueError.
unfoldable pub consume : Bool → ℤ → RetryBudget → Option (Bool × RetryBudget)
consume late (negsuc _) b = none
consume late (pos cost) b =
    if leb b.max_attempts b.attempts || ltb b.max_total_cost (b.total_cost + cost)
    then some (false, b)
    else if late
    then some (false, b)
    else some (true, record b { attempts = b.attempts + 1; total_cost = b.total_cost + cost })

-- `RetryBudget.remaining`: attempts and cost; the time is left out.
abbrev pub remaining : RetryBudget → ℕ × ℕ
remaining b = (b.max_attempts - b.attempts, b.max_total_cost - b.total_cost)

pub record AttemptRecord : Type 0 where
  pub attempt_number : ℕ
  pub proposal : RepairProposal
  pub policy : PolicyResult
  pub evaluation : EvaluationResult
  pub verification : Option EvaluationResult
  pub remaining_budget : ℕ × ℕ

-- `str(arguments.get("path", ""))`.
abbrev pub argument : String → List (String × String) → String
argument key [] = ""
argument key ((k, v) ∷ rest) = if str_eq k key then v else argument key rest

-- `ExecutionEvaluator.evaluate`.
unfoldable pub evaluate : RepairProposal → ToolExecutionResult → EvaluationResult
evaluate p r =
    let changed = not (is_empty r.changed_files) in
    let expected = any (str_eq (argument "path" p.arguments)) r.changed_files in
    let success = r.command_success && changed && expected in
    record {
      success = success;
      checks =
          ("command_success", r.command_success)
          ∷ ("target_file_changed", changed)
          ∷ ("expected_target_changed", expected)
          ∷ [];
      failure_reason =
          if success then none else some "execution evidence did not satisfy expected mutation";
    }

-- `not text` of an optional text.
abbrev pub missing : Option String → Bool
missing none = true
missing (some s) = str_eq s ""

-- `METRIC_NAMES`.
pub data Metric : Type 0 where
  policy_allow_count policy_deny_count approval_required_count tool_execution_count
        tool_failure_count retry_count retry_exhaustion_count human_escalation_count
        verified_success_count :
      Metric

pub record GatewayResult : Type 0 where
  pub status : String
  pub policy_decision : Option PolicyResult
  pub attempts : List AttemptRecord
  pub state_history : List GatewayState
  -- The reason of an escalation.
  pub escalation : Option String
