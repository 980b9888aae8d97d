-- ===== src/Governed/Classify.antt =====
-- FailureClassifier (ci_failure_orchestrator/governed/classifier.py) and DeterministicPlanner
-- (governed/planner.py). The two taxonomies by regular expressions, `classify_error` of classifier.py and
-- `classify_failed_check` of github_repair_adapter.py, are parameters.
use ci_failure_orchestrator.Common.{
  ℕ, String, List, [], ◌∷◌, ◌++◌, Option, none, some, ltb, if◌then◌else◌, str_eq, is_empty, when,
}
use ci_failure_orchestrator.Governed.Defs.{FailureEvent, FailureClassification, RepairPlan, listed}

pub record FailedCheck : Type 0 where
  pub workflow : String
  pub job : String
  pub failed_step : String
  pub log_excerpt : String
  pub changed_paths : List String

abbrev pub lookup : String → List (String × String) → Option String
lookup key [] = none
lookup key ((k, v) ∷ rest) = if str_eq k key then some v else lookup key rest

-- `_LEGACY_TO_GOVERNED`.
abbrev pub legacy_to_governed : List (String × String)
legacy_to_governed =
    ("TYPE_ERROR", "type_failure")
    ∷ ("BUILD_ERROR", "build_failure")
    ∷ ("NETWORK_ERROR", "network_failure")
    ∷ ("DEPENDENCY_ERROR", "dependency_failure")
    ∷ ("TEST_ASSERTION", "test_failure")
    ∷ ("FLAKY_TEST", "flaky_failure")
    ∷ ("PACKAGE_ERROR", "dependency_failure")
    ∷ ("DEPLOYMENT_ERROR", "infrastructure_failure")
    ∷ ("SECURITY_ERROR", "configuration_failure")
    ∷ ("RUNTIME_ERROR", "infrastructure_failure")
    ∷ ("UNKNOWN", "unknown")
    ∷ ("lint", "lint_failure")
    ∷ ("formatting", "lint_failure")
    ∷ ("typing", "type_failure")
    ∷ ("workflow_syntax", "configuration_failure")
    ∷ ("unit_test_failure", "test_failure")
    ∷ ("unknown", "unknown")
    ∷ []

abbrev pub next_actions : List (String × String)
next_actions =
    ("lint_failure", "plan_format_or_lint_fix")
    ∷ ("type_failure", "plan_type_annotation_fix")
    ∷ ("test_failure", "plan_minimal_test_fix")
    ∷ ("flaky_failure", "escalate_or_quarantine")
    ∷ ("dependency_failure", "inspect_lockfiles_with_approval")
    ∷ ("network_failure", "escalate_infrastructure")
    ∷ ("infrastructure_failure", "escalate_infrastructure")
    ∷ ("build_failure", "plan_build_fix")
    ∷ ("configuration_failure", "escalate_config_review")
    ∷ ("unknown", "escalate_human")
    ∷ []

-- `.get(key, default)`.
abbrev pub lookup_or : String → String → List (String × String) → String
lookup_or default key table = elim (lookup key table) [ none ↦ default | some v ↦ v ]

-- `text or other`.
abbrev pub text_or : String → String → String
text_or text other = if str_eq text "" then other else text

abbrev pub max_of : ℕ → ℕ → ℕ
max_of a b = if ltb a b then b else a

unfoldable pub governed_class : String → String → String
governed_class message_class adapter_class =
    if str_eq message_class "FLAKY_TEST"
    then "flaky_failure"
    else if str_eq adapter_class "unknown"
    then lookup_or "unknown" message_class legacy_to_governed
    else elim (lookup adapter_class legacy_to_governed) [
      | some c ↦ c
      | none ↦ lookup_or "unknown" message_class legacy_to_governed
    ]

abbrev pub confidence_of : String → String → ℕ → ℕ
confidence_of message_class adapter_class confidence =
    if str_eq message_class "FLAKY_TEST"
    then max_of confidence 850
    else if str_eq adapter_class "unknown"
    then confidence
    else max_of confidence 700

-- `FailureClassifier.classify`.
unfoldable pub classify :
    (String → String × ℕ) → (FailedCheck → String) → FailureEvent → FailureClassification
classify classify_error classify_failed_check e =
    let (message_class, confidence) = classify_error (text_or e.message e.log_excerpt) in
    let adapter_class = classify_failed_check record {
      workflow = e.workflow;
      job = e.job;
      failed_step = e.failed_step;
      log_excerpt = text_or e.log_excerpt e.message;
      changed_paths = e.changed_paths;
    } in
    let failure_class = governed_class message_class adapter_class in
    record {
      failure_class = failure_class;
      confidence = confidence_of message_class adapter_class confidence;
      recommended_next_action = lookup_or "escalate_human" failure_class next_actions;
    }

-- The tools and the verification of `DeterministicPlanner.plan`, by the changed paths of the context.
unfoldable pub deterministic_plan : List String → FailureClassification → RepairPlan
deterministic_plan changed_paths k = record {
  tools =
      "log_inspection" ∷ (if is_empty changed_paths then [] else "file_read" ∷ [])
      ++ when (listed k.failure_class ("test_failure" ∷ "lint_failure" ∷ "type_failure" ∷ []))
          "test_runner";
  expected_verification = "target_check" ∷ "no_forbidden_paths" ∷ [];
}
