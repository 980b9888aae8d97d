-- ===== src/Governed/Classes.antt =====
-- The classes that the classifier of the governed pipeline gives, against its planner and its policy
-- (ci_failure_orchestrator/governed/classifier.py, planner.py and policy.py).
use ci_failure_orchestrator.Common.{
  ℕ, String, Bool, true, false, not, ◌&&◌, List, [], ◌∷◌, map, when, all, str_eq, eq_iff, sym, ◌∙◌,
  and-both, if◌then◌else◌, ◌≡◌, refl, arith, Bool-cases, inl, inr,
}
use ci_failure_orchestrator.Governed.Defs.{
  FailureEvent, FailureClassification, PolicyConfig, default_config, listed,
}
use ci_failure_orchestrator.Governed.Classify.{
  FailedCheck, lookup_or, legacy_to_governed, next_actions, governed_class, classify,
  deterministic_plan,
}

-- The governed vocabulary.
abbrev pub governed_classes : List String
governed_classes = map (λ entry. entry.0) next_actions

-- The policy may approve a proposal for the class without a person.
abbrev pub auto_eligible : PolicyConfig → String → Bool
auto_eligible config c =
    not (listed c config.always_escalate_classes)
    && listed c config.allowed_failure_classes_for_auto

abbrev agree : Bool → Bool → Bool
agree a b = if a then b else not b

agree_eq : (a b : Bool) → agree a b ≡ true → a ≡ b
agree_eq a b h = ground arith

-- Two tests that agree on a list agree on what it lists.
agree_on :
    (p q : String → Bool) (v : String) (xs : List String)
    → all (λ x. agree (p x) (q x)) xs ≡ true
    → listed v xs ≡ true
    → p v ≡ q v
agree_on p q v [] h l = absurd (ground arith)
agree_on p q v (x ∷ xs) h l =
    let (here, later) = and-both (agree (p x) (q x)) h in
    elim (Bool-cases (str_eq v x)) [
      | inl same ↦ rw ((eq_iff v x).0 same) (agree_eq (p x) (q x) here)
      | inr other ↦ agree_on p q v xs later (ground (arith, other))
    ]

-- What a look-up finds is a value of the table.
lookup_or-listed :
    (default key : String) (table : List (String × String)) (xs : List String)
    → listed default xs ≡ true
    → all (λ entry. listed entry.1 xs) table ≡ true
    → listed (lookup_or default key table) xs ≡ true
lookup_or-listed default key [] xs d h = d
lookup_or-listed default key ((k, v) ∷ rest) xs d h = elim (Bool-cases (str_eq k key)) [
  | inl here ↦ ground (arith, here)
  | inr later ↦ ground (arith, later, lookup_or-listed default key rest xs d)
]

governed_class-listed :
    (message_class adapter_class : String)
    → listed (governed_class message_class adapter_class) governed_classes ≡ true
unfolding governed_class
governed_class-listed message_class adapter_class =
    let by_message =
      lookup_or-listed "unknown" message_class legacy_to_governed governed_classes refl refl in
    let by_adapter =
      lookup_or-listed (lookup_or "unknown" message_class legacy_to_governed) adapter_class
        legacy_to_governed governed_classes by_message refl in
    elim (Bool-cases (str_eq message_class "FLAKY_TEST")) [
      | inl flaky ↦ rw flaky refl
      | inr not_flaky ↦ elim (Bool-cases (str_eq adapter_class "unknown")) [
        | inl unknown ↦ rw (not_flaky, unknown) by_message
        | inr known ↦ rw (not_flaky, known) by_adapter
      ]
    ]

abbrev tested_classes : List String
tested_classes = "test_failure" ∷ "lint_failure" ∷ "type_failure" ∷ []

plan-tested :
    (changed_paths : List String) (k : FailureClassification)
    → listed "test_runner" (deterministic_plan changed_paths k).tools
      ≡ listed k.failure_class tested_classes
unfolding deterministic_plan
plan-tested [] k = by_test (listed k.failure_class tested_classes)
  where
    by_test : (b : Bool) → listed "test_runner" ("log_inspection" ∷ when b "test_runner") ≡ b
    by_test true = refl
    by_test false = refl
plan-tested (_ ∷ _) k = by_test (listed k.failure_class tested_classes)
  where
    by_test :
        (b : Bool)
        → listed "test_runner" ("log_inspection" ∷ "file_read" ∷ when b "test_runner") ≡ b
    by_test true = refl
    by_test false = refl

-- Classifier, planner and policy fit together. For any taxonomies of messages and of failed checks, a
-- classification names one of the ten governed classes, it asks for people at once exactly if the
-- class is unknown, and the default policy may approve a proposal for its class without a person
-- exactly if the deterministic plan for it runs the tests.
pub classes_fit :
    (classify_error : String → String × ℕ) (classify_failed_check : FailedCheck → String)
    (e : FailureEvent) (changed_paths : List String)
    → let k = classify classify_error classify_failed_check e in
      (listed k.failure_class governed_classes ≡ true)
      × (str_eq k.recommended_next_action "escalate_human" ≡ str_eq k.failure_class "unknown")
      × (auto_eligible default_config k.failure_class
          ≡ listed "test_runner" (deterministic_plan changed_paths k).tools)
unfolding classify
classes_fit classify_error classify_failed_check e changed_paths =
    let k = classify classify_error classify_failed_check e in
    let member : listed k.failure_class governed_classes ≡ true = governed_class-listed _ _ in
    (
      member,
      agree_on (λ c. str_eq (lookup_or "escalate_human" c next_actions) "escalate_human")
          (λ c. str_eq c "unknown") k.failure_class governed_classes refl member,
      agree_on (auto_eligible default_config) (λ c. listed c tested_classes) k.failure_class
            governed_classes refl member
          ∙ sym (plan-tested changed_paths k),
    )
