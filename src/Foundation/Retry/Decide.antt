-- ===== src/Foundation/Retry/Decide.antt =====
-- What the retry decision of ci_failure_orchestrator/foundation/retry.py promises.
use ci_failure_orchestrator.Common.{
  ℕ, ◌-◌, String, Bool, true, false, not, ◌&&◌, ◌||◌, List, [], ◌∷◌, ◌++◌, Option, ◌≡◌, arith,
  length, last?, last?-append, leb, ltb,
}
use mathlib.Core.List.{reverse}
use ci_failure_orchestrator.Foundation.Models.{EvaluationResult, SandboxResult}
use ci_failure_orchestrator.Foundation.Retry.{
  RetryBudget, AttemptRecord, RetryReason, max_attempts_exhausted, security_boundary_hit,
  invalid_proposal, decide, decide_latest, by_disposition, identical_proposals, identical_failures,
  streak, improved, is_unrecoverable, is_transient, is_recoverable, unrecoverable_reason,
}
use ci_failure_orchestrator.Foundation.Retry.Attempt.{build_attempt_record}

-- The conditions for another attempt after `latest`, in any order.
abbrev pub may_retry : RetryBudget → List AttemptRecord → AttemptRecord → EvaluationResult → Bool
may_retry b tried latest ev =
    ltb (length tried) b.max_attempts
    && not ev.passed
    && not latest.evaluation_passed
    && not (is_unrecoverable latest.disposition)
    && leb (identical_proposals tried latest) b.max_identical_proposals
    && (improved latest || ltb (identical_failures tried latest) b.max_identical_failures)
    && ltb (streak (reverse tried)) b.max_no_progress_attempts
    && (improved latest || is_transient latest.disposition || is_recoverable latest.disposition)

by_disposition_retries :
    (used remaining : ℕ) (latest : AttemptRecord)
    → (by_disposition used remaining latest).should_retry
      ≡ (improved latest || is_transient latest.disposition || is_recoverable latest.disposition)
unfolding by_disposition
by_disposition_retries used remaining latest = ground arith

decide_latest_retries :
    (b : RetryBudget) (tried : List AttemptRecord) (latest : AttemptRecord) (ev : EvaluationResult)
    → (decide_latest b tried latest ev).should_retry ≡ may_retry b tried latest ev
unfolding decide_latest
decide_latest_retries b tried latest ev =
    ground (arith, by_disposition_retries (length tried) (b.max_attempts - length tried) latest)

abbrev pub is_reason : RetryReason → RetryReason → Bool
is_reason max_attempts_exhausted max_attempts_exhausted = true
is_reason invalid_proposal invalid_proposal = true
is_reason security_boundary_hit security_boundary_hit = true
is_reason _ _ = false

forbidden_unrecoverable :
    (n : ℕ) (proposal_fp failure_fp : String) (ev : EvaluationResult) (sandbox : SandboxResult)
    (previous : Option AttemptRecord)
    → ev.forbidden_changes_detected ≡ true
    → is_unrecoverable
        (build_attempt_record n proposal_fp failure_fp ev sandbox previous).disposition
      ≡ true
unfolding build_attempt_record
forbidden_unrecoverable n proposal_fp failure_fp ev sandbox previous bad = rw bad

forbidden_latest :
    (b : RetryBudget) (tried : List AttemptRecord) (latest : AttemptRecord) (ev : EvaluationResult)
    → ev.forbidden_changes_detected ≡ true
    → ev.passed ≡ false
    → latest.evaluation_passed ≡ false
    → is_unrecoverable latest.disposition ≡ true
    → let d = decide_latest b tried latest ev in
      (d.should_retry ≡ false)
      × ((is_reason d.reason max_attempts_exhausted
            || is_reason d.reason invalid_proposal
            || is_reason d.reason security_boundary_hit)
          ≡ true)
unfolding decide_latest unrecoverable_reason
forbidden_latest b tried latest ev bad out out' h = ground arith

decide-append :
    (b : RetryBudget) (tried : List AttemptRecord) (latest : AttemptRecord) (ev : EvaluationResult)
    → decide b (tried ++ latest ∷ []) ev ≡ decide_latest b (tried ++ latest ∷ []) latest ev
unfolding decide
decide-append b tried latest ev = rw (last?-append tried latest, decide)

-- Another attempt is made exactly when the budget has room, neither the evaluation nor the attempt
-- passed, the failure is recoverable, the proposal is not repeated beyond its limit, the failure is
-- not repeated without progress up to its limit, the idle streak is below its limit, and there is
-- progress or a transient or recoverable failure.
pub decide-may_retry :
    (b : RetryBudget) (tried : List AttemptRecord) (latest : AttemptRecord) (ev : EvaluationResult)
    → (decide b (tried ++ latest ∷ []) ev).should_retry
      ≡ may_retry b (tried ++ latest ∷ []) latest ev
decide-may_retry b tried latest ev =
    rw (decide-append b tried latest ev) (decide_latest_retries b (tried ++ latest ∷ []) latest ev)

-- An attempt whose changes were forbidden is never followed by another one, whatever its sandbox
-- reported, and the reason is the security boundary unless the attempt passed, the budget was used up
-- or the patch was invalid.
pub forbidden_stops :
    (b : RetryBudget) (tried : List AttemptRecord) (n : ℕ) (proposal_fp failure_fp : String)
    (ev : EvaluationResult) (sandbox : SandboxResult)
    → ev.forbidden_changes_detected ≡ true
    → ev.passed ≡ false
    → let latest = build_attempt_record n proposal_fp failure_fp ev sandbox (last? tried) in
      let d = decide b (tried ++ latest ∷ []) ev in
      (d.should_retry ≡ false)
      × ((is_reason d.reason max_attempts_exhausted
            || is_reason d.reason invalid_proposal
            || is_reason d.reason security_boundary_hit)
          ≡ true)
forbidden_stops b tried n proposal_fp failure_fp ev sandbox bad out =
    let latest = build_attempt_record n proposal_fp failure_fp ev sandbox (last? tried) in
    rw (decide-append b tried latest ev) (
      forbidden_latest b (tried ++ latest ∷ []) latest ev bad out
        (unfold build_attempt_record in out)
        (forbidden_unrecoverable n proposal_fp failure_fp ev sandbox (last? tried) bad))
