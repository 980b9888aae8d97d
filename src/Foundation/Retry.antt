-- ===== src/Foundation/Retry.antt =====
-- The retry budget and the retry decision: ci_failure_orchestrator/foundation/retry.py.
-- Fingerprints are texts that are only compared; the evidence lines of a decision are a data type.
pub mod Attempt
pub mod Decide
use ci_failure_orchestrator.Common.{
  ℕ, ◌+◌, ◌-◌, String, Chars, codes, contains, take, Bool, true, false, not, ◌&&◌, ◌||◌, List, [],
  ◌∷◌, map, Option, none, some, length, last?, count, leb, ltb, ◌==◌, str_eq, if◌then◌else◌,
}
use mathlib.Core.List.{reverse}
use ci_failure_orchestrator.Foundation.Models.{EvaluationResult}

pub data RetryReason : Type 0 where
  recoverable_failure partial_progress alternative_plan_available transient_tool_failure
        transient_sandbox_failure success max_attempts_exhausted identical_proposal_repeated
        identical_failure_repeated no_progress unrecoverable_failure invalid_proposal
        security_boundary_hit insufficient_evidence :
      RetryReason

pub data FailureDisposition : Type 0 where
  recoverable transient unrecoverable unknown : FailureDisposition

abbrev pub is_recoverable : FailureDisposition → Bool
is_recoverable recoverable = true
is_recoverable _ = false

abbrev pub is_transient : FailureDisposition → Bool
is_transient transient = true
is_transient _ = false

abbrev pub is_unrecoverable : FailureDisposition → Bool
is_unrecoverable unrecoverable = true
is_unrecoverable _ = false

pub record RetryBudget : Type 0 where
  pub max_attempts : ℕ
  pub max_identical_failures : ℕ
  pub max_identical_proposals : ℕ
  pub max_no_progress_attempts : ℕ
  pub max_retry_history_entries : ℕ

-- `RetryBudget()`.
abbrev pub default_budget : RetryBudget
default_budget = record {
  max_attempts = 3;
  max_identical_failures = 2;
  max_identical_proposals = 1;
  max_no_progress_attempts = 2;
  max_retry_history_entries = 3;
}

-- `__post_init__`: a budget that fails this test raises `ValueError`.
unfoldable pub is_valid : RetryBudget → Bool
is_valid b =
    leb 1 b.max_attempts
    && leb 1 b.max_identical_failures
    && leb 1 b.max_identical_proposals
    && leb 1 b.max_no_progress_attempts
    && leb 1 b.max_retry_history_entries

pub data Signal : Type 0 where
  first_attempt target_test_now_passes remaining_failure_count_decreased patch_now_applies
        sandbox_reached_further failure_signature_improved :
      Signal

pub record ProgressAssessment : Type 0 where
  pub improved : Bool
  pub signals : List Signal

-- `plan_goal`, `proposal_id` and `summary` are only shown.
pub record AttemptRecord : Type 0 where
  pub attempt_number : ℕ
  pub proposal_fingerprint : String
  pub failure_fingerprint : String
  pub evaluation_passed : Bool
  pub patch_applied : Bool
  pub target_passed : Bool
  pub failed_check_count : ℕ
  pub sandbox_error : Option String
  pub disposition : FailureDisposition
  pub progress : Option ProgressAssessment

pub data Evidence : Type 0 where
  no_attempts_recorded evaluation_passed conservative_stop : Evidence
  attempts maximum times no_progress_streak : ℕ → Evidence
  disposition : FailureDisposition → Evidence
  sandbox_error : String → Evidence
  fingerprint failure_fp : Chars → Evidence
  signal : Signal → Evidence

pub record RetryDecision : Type 0 where
  pub should_retry : Bool
  pub reason : RetryReason
  pub next_attempt : ℕ
  pub budget_remaining : ℕ
  pub progress_detected : Bool
  pub evidence : List Evidence

-- `bool(a.progress and a.progress.improved)`.
abbrev pub improved : AttemptRecord → Bool
improved a = elim a.progress [ none ↦ false | some p ↦ p.improved ]

-- `latest.progress.signals if latest.progress else ()`.
signals_of : AttemptRecord → List Evidence
signals_of a = elim a.progress [ none ↦ [] | some p ↦ map signal p.signals ]

-- `sandbox_error` is not `None` and not empty.
abbrev pub has_text : Option String → Bool
has_text none = false
has_text (some e) = not (str_eq e "")

-- `error in {"empty_patch", "binary_patch_rejected"}`.
abbrev pub invalid_patch : Option String → Bool
invalid_patch none = false
invalid_patch (some e) = str_eq e "empty_patch" || str_eq e "binary_patch_rejected"

abbrev pub mentions_forbidden : Option String → Bool
mentions_forbidden none = false
mentions_forbidden (some e) = contains (codes "forbidden") (codes e)

abbrev text_or_empty : Option String → String
text_or_empty none = ""
text_or_empty (some e) = e

-- `prop_counts.get(latest.proposal_fingerprint, 0)`, and the same for failures.
unfoldable pub identical_proposals : List AttemptRecord → AttemptRecord → ℕ
identical_proposals tried latest =
    count (λ a. str_eq a.proposal_fingerprint latest.proposal_fingerprint) tried

unfoldable pub identical_failures : List AttemptRecord → AttemptRecord → ℕ
identical_failures tried latest =
    count (λ a. str_eq a.failure_fingerprint latest.failure_fingerprint) tried

-- The loop over `reversed(attempts)`.
unfoldable pub streak : List AttemptRecord → ℕ
streak [] = 0
streak (a ∷ tried) = let rest = streak tried in if improved a then 0 else rest + 1

-- The reason for a stop by rule 3.
unfoldable pub unrecoverable_reason : EvaluationResult → AttemptRecord → RetryReason
unrecoverable_reason ev latest =
    if invalid_patch latest.sandbox_error
    then invalid_proposal
    else if ev.forbidden_changes_detected || mentions_forbidden latest.sandbox_error
    then security_boundary_hit
    else unrecoverable_failure

stop : RetryReason → ℕ → ℕ → Bool → List Evidence → RetryDecision
stop reason used remaining progress evidence = record {
  should_retry = false;
  reason = reason;
  next_attempt = used;
  budget_remaining = remaining;
  progress_detected = progress;
  evidence = evidence;
}

retry : RetryReason → ℕ → ℕ → Bool → List Evidence → RetryDecision
retry reason used remaining progress evidence = record {
  should_retry = true;
  reason = reason;
  next_attempt = used + 1;
  budget_remaining = remaining - 1;
  progress_detected = progress;
  evidence = evidence;
}

-- Rules 7 and 8: what a failure that passed every stop rule is answered by.
unfoldable pub by_disposition : ℕ → ℕ → AttemptRecord → RetryDecision
unfolding stop retry signals_of
by_disposition used remaining latest =
    let seen = disposition latest.disposition ∷ [] in
    if improved latest
    then retry partial_progress used remaining true (signals_of latest)
    else if is_transient latest.disposition
    then retry
        (if has_text latest.sandbox_error
          then transient_sandbox_failure
          else transient_tool_failure)
        used remaining false seen
    else if is_recoverable latest.disposition
    then retry (if leb 1 used then alternative_plan_available else recoverable_failure) used
        remaining false seen
    else stop insufficient_evidence used remaining false
        (disposition unknown ∷ conservative_stop ∷ [])

-- Rules 1 to 6, for a history that ends in `latest`.
unfoldable pub decide_latest :
    RetryBudget → List AttemptRecord → AttemptRecord → EvaluationResult → RetryDecision
unfolding stop
decide_latest b tried latest ev =
    let used = length tried in
    let remaining = b.max_attempts - used in
    let progress = improved latest in
    let proposals = identical_proposals tried latest in
    let failures = identical_failures tried latest in
    let idle = streak (reverse tried) in
    if ev.passed || latest.evaluation_passed
    then stop success used remaining progress (evaluation_passed ∷ [])
    else if leb b.max_attempts used
    then stop max_attempts_exhausted used 0 progress (attempts used ∷ maximum b.max_attempts ∷ [])
    else if is_unrecoverable latest.disposition
    then stop (unrecoverable_reason ev latest) used remaining progress
        (disposition latest.disposition ∷ sandbox_error (text_or_empty latest.sandbox_error) ∷ [])
    else if ltb b.max_identical_proposals proposals
    then stop identical_proposal_repeated used remaining progress
        (fingerprint (take 12 (codes latest.proposal_fingerprint)) ∷ times proposals ∷ [])
    else if leb b.max_identical_failures failures && not progress
    then stop identical_failure_repeated used remaining false
        (failure_fp (take 12 (codes latest.failure_fingerprint)) ∷ times failures ∷ [])
    else if leb b.max_no_progress_attempts idle
    then stop no_progress used remaining false (no_progress_streak idle ∷ [])
    else by_disposition used remaining latest

-- `RetryDecisionEngine.decide`.
unfoldable pub decide : RetryBudget → List AttemptRecord → EvaluationResult → RetryDecision
unfolding decide_latest by_disposition
decide b tried ev = elim (last? tried) [
  | none ↦ record {
    should_retry = false;
    reason = insufficient_evidence;
    next_attempt = 1;
    budget_remaining = b.max_attempts;
    progress_detected = false;
    evidence = no_attempts_recorded ∷ [];
  }
  | some latest ↦ decide_latest b tried latest ev
]
