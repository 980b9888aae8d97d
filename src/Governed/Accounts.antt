-- ===== src/Governed/Accounts.antt =====
-- What a round of the governed pipeline (ci_failure_orchestrator/governed/pipeline.py) keeps: its budget and
-- the failures that it has seen, and what a result says.
use ci_failure_orchestrator.Common.{
  ℕ, ◌+◌, ◌-◌, ◌≤◌, zero, suc, String, Bool, true, false, List, [], ◌∷◌, ◌++◌, Option, none, some,
  all, length, length-append, drop, str_eq, eq_iff, append_assoc, ◌≡◌, refl, ap, ◌∙◌, arith,
}
use ci_failure_orchestrator.Governed.Defs.{EvaluationResult, PolicyOutcome, approve, PolicyDecision}
use ci_failure_orchestrator.Governed.Retry.{RetryBudget, record_attempt, all_same, repeated}
use ci_failure_orchestrator.Governed.Outcomes.{PipelineError, illegal_transition, HumanEscalation}

abbrev pub is_approve : PolicyOutcome → Bool
is_approve approve = true
is_approve _ = false

abbrev pub approves : Option PolicyDecision → Bool
approves none = false
approves (some d) = is_approve d.outcome

abbrev pub passes : Option EvaluationResult → Bool
passes none = false
passes (some ev) = ev.passed

abbrev pub is_given : Option HumanEscalation → Bool
is_given none = false
is_given (some _) = true

abbrev pub expected_error : PipelineError → Bool
expected_error illegal_transition = false
expected_error _ = true

abbrev pub replicate : ℕ → String → List String
replicate zero x = []
replicate (suc n) x = x ∷ replicate n x

replicate-snoc : (n : ℕ) (x : String) → replicate n x ++ x ∷ [] ≡ replicate (suc n) x
replicate-snoc zero x = refl
replicate-snoc (suc n) x = ap (λ xs. x ∷ xs) (replicate-snoc n x)

length-replicate : (n : ℕ) (x : String) → length (replicate n x) ≡ n
length-replicate zero x = refl
length-replicate (suc n) x = ground (arith, length-replicate n x)

drop-replicate : (d m k : ℕ) (x : String) → k ≡ d + m → drop d (replicate k x) ≡ replicate m x
drop-replicate zero m k x h = ap (λ j. replicate j x) (omega arith)
drop-replicate (suc d) m zero x h = absurd (omega arith)
drop-replicate (suc d) m (suc k) x h = drop-replicate d m k x (omega arith)

drop_behind :
    (before : List String) (i d m k : ℕ) (x : String)
    → i ≡ length before + d
    → k ≡ d + m
    → drop i (before ++ replicate k x) ≡ replicate m x
drop_behind [] i d m k x h e =
    ap (λ j. drop j (replicate k x)) (omega arith) ∙ drop-replicate d m k x e
drop_behind (b ∷ before) zero d m k x h e = absurd (omega arith)
drop_behind (b ∷ before) (suc i) d m k x h e = drop_behind before i d m k x (omega arith) e

all_same-replicate : (n : ℕ) (x : String) → all_same (replicate (suc n) x) ≡ true
all_same-replicate n x = each n
  where
    each : (n : ℕ) → all (str_eq x) (replicate n x) ≡ true
    each zero = refl
    each (suc n) = ground (arith, each n, eq_iff x x)

module _ (start : RetryBudget) (fingerprint : String) where
  -- A budget behind some attempts at the same failure.
  pub record Tally (b : RetryBudget) (n : ℕ) : Type 0 where
    pub same_max : b.max_attempts ≡ start.max_attempts
    pub same_limit : b.repeated_failure_limit ≡ start.repeated_failure_limit
    pub used : b.attempts_used ≡ start.attempts_used + n
    pub failures : b.failure_fingerprints ≡ start.failure_fingerprints ++ replicate n fingerprint

  pub recorded :
      (b : RetryBudget) (n : ℕ) (patch : String)
      → Tally b n
      → Tally (record_attempt fingerprint patch b) (suc n)
  unfolding record_attempt
  recorded b n patch t = record {
    same_max = t.same_max;
    same_limit = t.same_limit;
    used = ground (arith, t.used);
    failures =
        ap (λ fs. fs ++ fingerprint ∷ []) t.failures
        ∙ append_assoc start.failure_fingerprints (replicate n fingerprint) (fingerprint ∷ [])
        ∙ ap (λ fs. start.failure_fingerprints ++ fs) (replicate-snoc n fingerprint);
  }

  -- As many failures as the limit are repeated ones.
  pub limit_reached :
      (b : RetryBudget) (n m : ℕ)
      → Tally b n
      → start.repeated_failure_limit ≡ suc m
      → suc m ≤ n
      → repeated b ≡ true
  limit_reached b n m t limit few =
      let fs = start.failure_fingerprints ++ replicate n fingerprint in
      let size : length fs ≡ length start.failure_fingerprints + n =
        length-append start.failure_fingerprints (replicate n fingerprint)
        ∙ ap (λ k. length start.failure_fingerprints + k) (length-replicate n fingerprint) in
      let tail : drop (length fs - suc m) fs ≡ replicate (suc m) fingerprint =
        drop_behind start.failure_fingerprints (length fs - suc m) (n - suc m) (suc m) n fingerprint
          (omega arith) (omega arith) in
      rw (t.failures, t.same_limit, limit)
        (ground (arith, size, tail, ap all_same tail ∙ all_same-replicate m fingerprint))
