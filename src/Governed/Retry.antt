-- ===== src/Governed/Retry.antt =====
-- RetryBudget of ci_failure_orchestrator/governed/retry.py.
use ci_failure_orchestrator.Common.{
  ℕ, ◌+◌, ◌-◌, String, Bool, true, false, ◌&&◌, List, [], ◌∷◌, ◌++◌, Option, none, some, all,
  length, drop, leb, ◌==◌, if◌then◌else◌, str_eq,
}
use ci_failure_orchestrator.Governed.Defs.{EvaluationResult}

pub record RetryBudget : Type 0 where
  pub max_attempts : ℕ
  pub attempts_used : ℕ
  pub repeated_failure_limit : ℕ
  pub failure_fingerprints : List String
  pub patch_fingerprints : List String

abbrev pub new_budget : RetryBudget
new_budget = record {
  max_attempts = 3;
  attempts_used = 0;
  repeated_failure_limit = 2;
  failure_fingerprints = [];
  patch_fingerprints = [];
}

-- `record_attempt`.
unfoldable pub record_attempt : String → String → RetryBudget → RetryBudget
record_attempt failure patch b = record b {
  attempts_used = b.attempts_used + 1;
  failure_fingerprints = b.failure_fingerprints ++ failure ∷ [];
  patch_fingerprints =
      if str_eq patch "" then b.patch_fingerprints else b.patch_fingerprints ++ patch ∷ [];
}

-- `xs[-n:]`, which is the whole list for 0.
abbrev pub last_n : ℕ → List String → List String
last_n n xs = if n == 0 then xs else drop (length xs - n) xs

-- `len(set(xs)) == 1`.
abbrev pub all_same : List String → Bool
all_same [] = false
all_same (x ∷ xs) = all (str_eq x) xs

-- `xs[-1] == xs[-2]` if there are two.
abbrev pub ends_twice : List String → Bool
ends_twice xs = leb 2 (length xs) && all_same (drop (length xs - 2) xs)

pub record RetryDecision : Type 0 where
  pub should_retry : Bool
  pub reason : String

abbrev stop : String → RetryDecision
stop reason = record { should_retry = false; reason = reason }

abbrev pub passed : Option EvaluationResult → Bool
passed none = false
passed (some ev) = ev.passed

abbrev pub repeated : RetryBudget → Bool
repeated b =
    leb b.repeated_failure_limit (length b.failure_fingerprints)
    && all_same (last_n b.repeated_failure_limit b.failure_fingerprints)

-- `decide`, with `unrecoverable`, `requires_human`, `policy_blocks_retry` and whether there is a proposal.
unfoldable pub decide :
    Bool → Bool → Bool → Option EvaluationResult → Bool → RetryBudget → RetryDecision
decide unrecoverable requires_human policy_blocks_retry ev has_proposal b =
    if unrecoverable
    then stop "unrecoverable"
    else if requires_human
    then stop "human_required"
    else if policy_blocks_retry
    then stop "policy_blocks_retry"
    else if leb b.max_attempts b.attempts_used
    then stop "budget_exhausted"
    else if passed ev
    then stop "evaluation_passed"
    else if repeated b
    then stop "repeated_identical_failure"
    else if has_proposal && ends_twice b.patch_fingerprints
    then stop "repeated_identical_patch"
    else record { should_retry = true; reason = "retry_allowed" }
