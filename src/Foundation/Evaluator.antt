-- ===== src/Foundation/Evaluator.antt =====
-- From a sandbox result to an evaluation: ci_failure_orchestrator/foundation/evaluator.py.
use ci_failure_orchestrator.Common.{
  String, codes, contains, lower, replace_char, Bool, true, false, not, ◌&&◌, ◌||◌, List, [], ◌∷◌,
  Option, none, some, any, is_empty, find?, str_eq, if◌then◌else◌,
}
use ci_failure_orchestrator.Foundation.Models.{
  ToolResult, RepairProposal, SandboxResult, CheckStatus, passed, failed, not_run, unavailable,
  skipped, EvaluationCheck, EvaluationResult,
}

-- `any(marker in normalized for marker in FORBIDDEN_MARKERS)`.
unfoldable pub forbidden_path : String → Bool
forbidden_path path =
    let normalized = lower (replace_char b'\\' b'/' (codes path)) in
    contains (codes "secrets/") normalized
    || contains (codes ".env") normalized
    || contains (codes "id_rsa") normalized

-- `sandbox.changed_files or proposal.files_changed`.
abbrev pub touched : RepairProposal → SandboxResult → List String
touched p s = if is_empty s.changed_files then p.files_changed else s.changed_files

abbrev pub is_none : Option String → Bool
is_none none = true
is_none (some e) = false

abbrev pub ran_tool : String → ToolResult → Bool
ran_tool name c = str_eq c.tool_name name

abbrev is_step : String → ToolResult → Bool
is_step name c = elim c.step [ none ↦ false | some step ↦ str_eq step name ]

-- The status of a check for which there may be a command result.
status_or : CheckStatus → Option ToolResult → CheckStatus
status_or absent none = absent
status_or absent (some c) = if c.success then passed else failed

abbrev pub succeeded : Option ToolResult → Bool
succeeded none = false
succeeded (some c) = c.success

abbrev pub ran_and_failed : Option ToolResult → Bool
ran_and_failed none = false
ran_and_failed (some c) = not c.success

checks_of : Bool → Bool → Option ToolResult → List ToolResult → List EvaluationCheck
unfolding status_or
checks_of applied forbidden target results =
    record { name = "PATCH_APPLIED"; status = if applied then passed else failed }
    ∷ record { name = "TARGET_TEST_PASSED"; status = status_or not_run target }
    ∷ record {
      name = "RELEVANT_TESTS_PASSED";
      status = status_or unavailable (find? (is_step "relevant_tests") results);
    }
    ∷ record { name = "NO_FORBIDDEN_FILES_CHANGED"; status = if forbidden then failed else passed }
    ∷ record {
      name = "NO_NEW_LINT_ERRORS";
      status = status_or skipped (find? (ran_tool "lint") results);
    }
    ∷ record {
      name = "NO_NEW_TYPE_ERRORS";
      status = status_or skipped (find? (ran_tool "typecheck") results);
    }
    ∷ []

-- `LocalEvaluator.evaluate`; `none` is the `EvaluationError` for an empty `run_id`. The missing target
-- result that fails closed is the first conjunct of `passed`.
unfoldable pub evaluate : RepairProposal → SandboxResult → Option EvaluationResult
unfolding checks_of
evaluate proposal sandbox =
    let applied = sandbox.patch_applied && is_none sandbox.error in
    let target = find? (ran_tool "test_runner") sandbox.command_results in
    let forbidden = any forbidden_path (touched proposal sandbox) in
    if str_eq proposal.run_id ""
    then none
    else some (record {
      passed =
          succeeded target
          && applied
          && not forbidden
          && not sandbox.timeout
          && is_none sandbox.error;
      patch_applied = applied;
      target_verification_passed = succeeded target;
      regressions_detected = sandbox.timeout || ran_and_failed target;
      forbidden_changes_detected = forbidden;
      checks = checks_of applied forbidden target sandbox.command_results;
    })
