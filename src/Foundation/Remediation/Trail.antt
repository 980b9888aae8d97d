-- ===== src/Foundation/Remediation/Trail.antt =====
-- The trail of states that ci_failure_orchestrator/foundation/remediation.py stores with a decision.
use ci_failure_orchestrator.Common.{
  ℕ, ◌≤◌, ◌<◌, Bool, true, false, not, ◌&&◌, List, [], ◌∷◌, ◌++◌, some, ◌≡◌, refl, arith, is_empty,
  last?, ap, map-append, last?-append, last?-cons, last_or, ltb, map, if_keeps, not-false, ◌∙◌,
}
use mathlib.Core.Option
use ci_failure_orchestrator.Foundation.Remediation.Evidence.{
  VerificationResult, RemediationState, ordinal, failure_received, policy_approved,
  policy_satisfied, Reason, MergeRequirement, is_verified_fix, is_none,
}
use ci_failure_orchestrator.Foundation.Remediation.Decision.{
  stages, later_stages, trail, rejections, reviews, decide_remediation, conclude,
  RemediationDecision, failures, regressions,
}
use ci_failure_orchestrator.Foundation.Remediation.Verdict.{no_rejections, no_reviews}

-- Each number of the list is above the one before it.
abbrev ascending : List ℕ → Bool
ascending [] = true
ascending (m ∷ []) = true
ascending (m ∷ n ∷ rest) = ltb m n && ascending (n ∷ rest)

ascending-append :
    (ms : List ℕ) (m n : ℕ)
    → ascending ms ≡ true
    → last? ms ≡ some m
    → m < n
    → ascending (ms ++ n ∷ []) ≡ true
ascending-append [] m n h l lt = refl
ascending-append (k ∷ []) m n h l lt = ground arith
ascending-append (k ∷ j ∷ rest) m n h l lt = ground (arith, ascending-append (j ∷ rest) m n)

abbrev ordinals : List RemediationState → List ℕ
ordinals = map ordinal

stages-ascending : (v : VerificationResult) → ascending (ordinals (stages v)) ≡ true
unfolding stages
stages-ascending v = ground arith

last-ordinals : (xs : List RemediationState) → last? (ordinals xs) ≡ Option.map ordinal (last? xs)
last-ordinals [] = refl
last-ordinals (x ∷ []) = refl
last-ordinals (x ∷ y ∷ xs) = last-ordinals (y ∷ xs)

stages_last :
    (v : VerificationResult) → last? (stages v) ≡ some (last_or failure_received (later_stages v))
unfolding stages
stages_last v = last?-cons failure_received (later_stages v)

stages_bounded : (v : VerificationResult) → ordinal (last_or failure_received (later_stages v)) ≤ 6
unfolding later_stages
stages_bounded v = ground arith

stages_approved :
    (v : VerificationResult)
    → policy_satisfied v ≡ true
    → v.forbidden_diff_detected ≡ false
    → last_or failure_received (later_stages v) ≡ policy_approved
unfolding later_stages
stages_approved v p f = ground arith

-- A trail is in order and ends in `s`.
abbrev pub LeadsTo : RemediationState → List RemediationState → Type 0
LeadsTo s steps = (ascending (ordinals steps) ≡ true) × (last? steps ≡ some s)

trail_appended :
    (v : VerificationResult) (final : RemediationState)
    → 6 < ordinal final
    → trail v final ≡ stages v ++ final ∷ []
unfolding trail
trail_appended v final lt = rw (stages_last v, trail) (ground (arith, stages_bounded v))

trail-LeadsTo :
    (v : VerificationResult) (final : RemediationState)
    → 6 < ordinal final
    → LeadsTo final (trail v final)
trail-LeadsTo v final lt =
    let before = last_or failure_received (later_stages v) in
    rw (trail_appended v final lt) (
      rw (map-append ordinal (stages v) (final ∷ [])) (
          ascending-append (ordinals (stages v)) (ordinal before) (ordinal final)
            (stages-ascending v) (rw (last-ordinals (stages v), stages_last v))
            (omega (arith, stages_bounded v))),
      last?-append (stages v) final,
    )

trail-LeadsTo_approved :
    (v : VerificationResult)
    → policy_satisfied v ≡ true
    → v.forbidden_diff_detected ≡ false
    → LeadsTo policy_approved (trail v policy_approved)
unfolding trail
trail-LeadsTo_approved v p f =
    let e = stages_last v ∙ ap some (stages_approved v p f) in rw (e, trail) (stages-ascending v, e)

abbrev Ends : RemediationDecision → Type 0
Ends d = LeadsTo d.state d.steps

conclude-Ends :
    (v : VerificationResult) (final : RemediationState) (reasons : List Reason)
    (merge : MergeRequirement)
    → 6 < ordinal final
    → Ends (conclude v final reasons merge)
unfolding conclude
conclude-Ends v final reasons merge lt = trail-LeadsTo v final lt

approved-Ends :
    (v : VerificationResult) (reasons : List Reason) (merge : MergeRequirement)
    → is_empty (rejections v) ≡ true
    → is_empty (reviews v) ≡ true
    → Ends (conclude v policy_approved reasons merge)
unfolding conclude
approved-Ends v reasons merge clean calm =
    trail-LeadsTo_approved v (ground (arith, no_reviews v)) (ground (arith, no_rejections v))

-- The stored trail names states in the order of their declaration, each at most once, and ends in
-- the decided state.
pub decide_remediation-LeadsTo :
    (v : VerificationResult) → LeadsTo (decide_remediation v).state (decide_remediation v).steps
unfolding decide_remediation
decide_remediation-LeadsTo v =
    if_keeps Ends (not (is_empty (rejections v))) _ _ (λ _. conclude-Ends v _ _ _ (omega arith))
      λ clean.
        if_keeps Ends (not (is_empty (failures v))) _ _ (λ _. conclude-Ends v _ _ _ (omega arith))
          λ _.
            if_keeps Ends (not (is_empty (regressions v))) _ _
              (λ _. conclude-Ends v _ _ _ (omega arith))
              λ _.
                if_keeps Ends (not (is_empty (reviews v))) _ _
                  (λ _. conclude-Ends v _ _ _ (omega arith))
                  λ calm.
                    if_keeps Ends (is_none v.real_ci_passed) _ _
                      (λ _. approved-Ends v _ _ (not-false clean) (not-false calm))
                      λ _.
                        if_keeps Ends (not (is_verified_fix v)) _ _
                          (λ _. conclude-Ends v _ _ _ (omega arith))
                          λ _. conclude-Ends v _ _ _ (omega arith)
