-- ===== src/Examples/Repair.antt =====
-- Runs of the repair loop of ci_failure_orchestrator/foundation/: lifecycle, evaluation, retry decision
-- and remediation verdict.
use ci_failure_orchestrator.Common.{
  not, ◌||◌, String, true, false, ◌&&◌, List, [], ◌∷◌, none, ◌≡◌, refl, any,
}
use ci_failure_orchestrator.Lifecycle.{initial, attempt, attempt_all, Connects}
use ci_failure_orchestrator.Foundation.StateMachine.{
  RunStatus, is, allowed, terminal, received, context_ready, evaluated, policy_review, approved,
  rejected, succeeded, awaiting_human,
}
use ci_failure_orchestrator.Foundation.StateMachine as Status
use ci_failure_orchestrator.Foundation.StateMachine.Order.{reviewed, reviewed_after_evaluated}
use ci_failure_orchestrator.Foundation.Models.{RepairProposal, SandboxResult}

-- An approved run, with a move that is refused on its way.
abbrev approved_run : List (RunStatus × String)
approved_run =
    (context_ready, "")
    ∷ (approved, "too early")
    ∷ (Status.classified, "")
    ∷ (Status.planned, "")
    ∷ (Status.executing, "")
    ∷ (Status.proposal_ready, "")
    ∷ (Status.sandbox_running, "")
    ∷ (Status.evaluating, "")
    ∷ (evaluated, "")
    ∷ (policy_review, "")
    ∷ (approved, "low risk")
    ∷ []

approved_reviewed : reviewed (attempt_all allowed (initial received) approved_run).status ≡ true
unfolding attempt_all allowed attempt
approved_reviewed = refl

reviewed_after_evaluated_example :
    let m = attempt_all allowed (initial received) approved_run in
    Connects allowed received m.history m.status
    × ((not (reviewed m.status) || any (λ e. is e.0 evaluated && is e.1 policy_review) m.history)
        ≡ true)
reviewed_after_evaluated_example = reviewed_after_evaluated approved_run

abbrev proposal : RepairProposal
proposal = record {
  run_id = "run_1";
  proposal_id = "p1";
  files_changed = "pkg/date.py" ∷ [];
  patch = "@@ -1 +1 @@";
}

abbrev green : SandboxResult
green = record {
  patch_applied = true;
  command_results = record { tool_name = "test_runner"; success = true; step = none } ∷ [];
  changed_files = "pkg/date.py" ∷ [];
  timeout = false;
  error = none;
}
