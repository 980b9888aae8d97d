-- ===== src/Foundation/Retry/Attempt.antt =====
-- How an attempt is recorded: progress against the attempt before, and the class of its failure
-- (ci_failure_orchestrator/foundation/retry.py).
use ci_failure_orchestrator.Common.{
  ℕ, String, Chars, codes, contains, lower, same, Bool, true, false, not, ◌&&◌, ◌||◌, List, [], ◌∷◌,
  ◌++◌, Option, none, some, ◌≡◌, ◌≢◌, arith, count, is_empty, when, leb, ltb, str_eq, eq_iff,
  if◌then◌else◌,
}
use ci_failure_orchestrator.Foundation.Models.{
  EvaluationResult, SandboxResult, EvaluationCheck, is_failed,
}
use ci_failure_orchestrator.Foundation.Retry.{
  AttemptRecord, FailureDisposition, recoverable, transient, unrecoverable, unknown, Signal,
  ProgressAssessment, first_attempt, target_test_now_passes, remaining_failure_count_decreased,
  patch_now_applies, sandbox_reached_further, failure_signature_improved, has_text,
}

-- The signals of an attempt that has one before it.
unfoldable pub progress_signals : AttemptRecord → AttemptRecord → List Signal
progress_signals previous current =
    when (not previous.target_passed && current.target_passed) target_test_now_passes
    ++ (when (ltb current.failed_check_count previous.failed_check_count)
          remaining_failure_count_decreased
        ++ (when (not previous.patch_applied && current.patch_applied) patch_now_applies
            ++ (when (has_text previous.sandbox_error && not (has_text current.sandbox_error))
                  sandbox_reached_further
                ++ when
                    (not (str_eq previous.failure_fingerprint current.failure_fingerprint)
                      && leb current.failed_check_count previous.failed_check_count
                      && current.patch_applied
                      && (ltb current.failed_check_count previous.failed_check_count
                          || current.target_passed))
                    failure_signature_improved)))

unfoldable pub assess_progress : Option AttemptRecord → AttemptRecord → ProgressAssessment
unfolding progress_signals
assess_progress none current = record { improved = false; signals = first_attempt ∷ [] }
assess_progress (some previous) current =
    let signals = progress_signals previous current in
    record { improved = not (is_empty signals); signals = signals }

-- `(sandbox.error or "").lower()`.
error_text : Option String → Chars
error_text none = []
error_text (some e) = lower (codes e)

-- `err in RECOVERABLE_PROPOSAL_ERRORS`.
unfoldable pub recoverable_proposal_error : Chars → Bool
recoverable_proposal_error e =
    same e (codes "patch_check_failed")
    || same e (codes "patch_apply_failed")
    || same e (codes "no_patch_extracted")
    || same e (codes "provider_failed")

-- `classify_disposition`, over the lowered error text.
unfoldable pub disposition_of : EvaluationResult → SandboxResult → Chars → FailureDisposition
disposition_of ev sandbox e =
    if ev.forbidden_changes_detected || contains (codes "forbidden_path") e
    then unrecoverable
    else if same e (codes "empty_patch")
        || same e (codes "binary_patch_rejected")
        || contains (codes "invalid") e
    then unrecoverable
    else if recoverable_proposal_error e
    then recoverable
    else if sandbox.timeout || contains (codes "timeout") e || contains (codes "setup") e
    then transient
    else if ev.passed
    then recoverable
    else if not ev.patch_applied
        && has_text sandbox.error
        && contains (codes "sandbox_setup_error") e
    then transient
    else if ev.patch_applied && not ev.passed
    then recoverable
    else unknown

unfoldable pub classify_disposition : EvaluationResult → SandboxResult → FailureDisposition
unfolding error_text disposition_of
classify_disposition ev sandbox = disposition_of ev sandbox (error_text sandbox.error)

-- `build_attempt_record`, given the fingerprints of the proposal and of the failure.
unfoldable pub build_attempt_record :
    ℕ → String → String → EvaluationResult → SandboxResult → Option AttemptRecord → AttemptRecord
unfolding assess_progress classify_disposition
build_attempt_record number proposal_fp failure_fp ev sandbox previous =
    let bare : AttemptRecord = record {
      attempt_number = number;
      proposal_fingerprint = proposal_fp;
      failure_fingerprint = failure_fp;
      evaluation_passed = ev.passed;
      patch_applied = ev.patch_applied;
      target_passed = ev.target_verification_passed;
      failed_check_count = count (λ (c : EvaluationCheck). is_failed c.status) ev.checks;
      sandbox_error = sandbox.error;
      disposition = classify_disposition ev sandbox;
      progress = none;
    } in
    record bare { progress = some (assess_progress previous bare) }

-- Progress is claimed exactly when the target test, the failed checks, the patch or the sandbox got
-- better, or when the failure signature changed while the patch applied, no more checks failed and
-- the target test passes.
pub improved_exact :
    (p c : AttemptRecord)
    → (assess_progress (some p) c).improved ≡ (
        (not p.target_passed && c.target_passed)
        || ltb c.failed_check_count p.failed_check_count
        || (not p.patch_applied && c.patch_applied)
        || (has_text p.sandbox_error && not (has_text c.sandbox_error))
        || (not (str_eq p.failure_fingerprint c.failure_fingerprint)
            && c.patch_applied
            && leb c.failed_check_count p.failed_check_count
            && c.target_passed))
unfolding assess_progress
improved_exact p c = ground arith

-- An attempt that is as good as the one before in every objective count is called an improvement
-- when its patch applied, its target test passed as before, and only the failure signature differs.
pub signature_alone_improves :
    (p c : AttemptRecord)
    → p.target_passed ≡ true
    → c.target_passed ≡ true
    → p.patch_applied ≡ true
    → c.patch_applied ≡ true
    → c.failed_check_count ≡ p.failed_check_count
    → p.failure_fingerprint ≢ c.failure_fingerprint
    → (assess_progress (some p) c).improved ≡ true
unfolding assess_progress
signature_alone_improves p c tp tc ap' ac e ne =
    ground (arith, eq_iff p.failure_fingerprint c.failure_fingerprint)
