-- ===== src/Examples/Governed.antt =====
-- The theorems on the governed pipeline at a concrete run, which succeeds at its first attempt.
use ci_failure_orchestrator.Common.{
  ℕ, String, str_eq, Bool, true, false, not, ◌&&◌, [], ◌∷◌, none, some, any, ◌≡◌, refl, arith,
  starts_with, contains, lower, lower_char, replace_char, is_blank, is_space, same,
}
use ci_failure_orchestrator.Loops.{Run, returned, stops, Returns, loop}
use ci_failure_orchestrator.Lifecycle.{transition}
use ci_failure_orchestrator.Governed.States.{is, succeeded}
use ci_failure_orchestrator.Governed.Defs.{
  FailureEvent, FailureClassification, RepairProposal, sandbox_execute, local_evaluate,
  policy_evaluate, default_config, listed, has_marker, forbidden_markers, out_of_scope,
}
use ci_failure_orchestrator.Governed.Retry.{new_budget, record_attempt}
use ci_failure_orchestrator.Governed.Classes.{governed_classes, auto_eligible, classes_fit}
use ci_failure_orchestrator.Governed.Classify.{
  FailedCheck, classify, deterministic_plan, governed_class,
}
use ci_failure_orchestrator.Governed.Outcomes.{
  Collaborators, PipelineResult, Pipeline, PipelineError, after_policy, by_outcome,
}
use ci_failure_orchestrator.Governed.Pipeline.{
  run, with_defaults, after_context, after_classification, round, after_plan, invoke_tools,
  after_proposal, after_sandbox, after_evaluation,
}
use ci_failure_orchestrator.Governed.Accounts.{expected_error, is_approve}
use ci_failure_orchestrator.Governed.Endings.{Accounts}
use ci_failure_orchestrator.Governed.Rounds.{Judged}
use ci_failure_orchestrator.Governed.Ends.{pipeline_stops, pipeline-Accounts}
use ci_failure_orchestrator.Governed.Gates.{harmless, gates_approve, Careful, pipeline-Careful}

abbrev failure : FailureEvent
failure = record {
  workflow = "ci";
  job = "test";
  failed_step = "pytest";
  message = "AssertionError: 1 != 2";
  changed_paths = "pkg/date.py" ∷ [];
  log_excerpt = "";
}

abbrev fix : RepairProposal
fix = record {
  proposal_id = "prop-1";
  files_affected = "pkg/date.py" ∷ [];
  proposed_patch = "@@ -1 +1 @@";
}

abbrev never_late : ℕ → Bool
never_late n = false

abbrev by_message : String → String × ℕ
by_message m = ("TEST_ASSERTION", 800)

abbrev by_check : FailedCheck → String
by_check c = "unit_test_failure"

abbrev bare : Collaborators Unit
bare = record {
  build_context = λ e. some tt;
  classify = λ e. some (classify by_message by_check e);
  plan = λ n c k. some (deterministic_plan ("pkg/date.py" ∷ []) k);
  registered = λ tool. true;
  handler_returns = λ n tool. true;
  too_slow = λ n tool. false;
  propose_repair = λ n c plan. some fix;
  sandbox = λ n p. none;
  evaluate = λ p s target. none;
  policy = λ p k ev tools. none;
  sha256 = λ text. text;
}

abbrev parts : Collaborators Unit
parts = with_defaults never_late bare

pipeline_stops_example : stops expected_error (run parts failure new_budget [] []) ≡ true
pipeline_stops_example = pipeline_stops parts failure new_budget (omega arith) [] []

pipeline-Accounts_example :
    Returns (Accounts new_budget (Judged parts)) (run parts failure new_budget [] [])
pipeline-Accounts_example = pipeline-Accounts parts failure new_budget (omega arith) [] []

pipeline-Careful_example :
    Returns
      (λ r p. is r.state succeeded ≡ true → Careful never_late r)
      (run parts failure new_budget [] [])
pipeline-Careful_example = pipeline-Careful never_late bare failure new_budget (omega arith) [] []

abbrev test_failure : FailureClassification
test_failure = record {
  failure_class = "test_failure";
  confidence = 800;
  recommended_next_action = "plan_minimal_test_fix";
}

gates_approve_example :
    is_approve
      (policy_evaluate default_config fix test_failure
        (local_evaluate fix (sandbox_execute false fix) true)
        []).outcome
    ≡ (not false
        && not (any (has_marker forbidden_markers) fix.files_affected)
        && harmless test_failure fix)
gates_approve_example = gates_approve false test_failure fix []

abbrev has_succeeded : Run Pipeline PipelineResult PipelineError → Bool
has_succeeded (returned r p) = is r.state succeeded
has_succeeded _ = false

succeeds : has_succeeded (run parts failure new_budget [] []) ≡ true
unfolding run after_context after_classification transition loop round after_plan invoke_tools
    after_proposal after_sandbox after_evaluation after_policy by_outcome record_attempt classify
    governed_class deterministic_plan sandbox_execute local_evaluate policy_evaluate starts_with
    contains lower lower_char replace_char is_blank is_space same out_of_scope
succeeds = refl

abbrev classification : FailureClassification
classification = classify by_message by_check failure

classes_fit_example :
    (listed classification.failure_class governed_classes ≡ true)
    × (str_eq classification.recommended_next_action "escalate_human"
        ≡ str_eq classification.failure_class "unknown")
    × (auto_eligible default_config classification.failure_class
        ≡ listed "test_runner" (deterministic_plan ("pkg/date.py" ∷ []) classification).tools)
classes_fit_example = classes_fit by_message by_check failure ("pkg/date.py" ∷ [])
