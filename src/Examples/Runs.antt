-- ===== src/Examples/Runs.antt =====
-- A run of the repair loop of ci_failure_orchestrator/foundation/runner.py.
use ci_failure_orchestrator.Common.{ℕ, ◌==◌, true, false, [], ◌∷◌, none, some}
use ci_failure_orchestrator.Foundation.Models.{RepairProposal, SandboxResult}
use ci_failure_orchestrator.Foundation.Retry.{default_budget}
use ci_failure_orchestrator.Foundation.Policy.Defs.{default_config}
use ci_failure_orchestrator.Foundation.Runner.{Runner, run}
use ci_failure_orchestrator.Foundation.Runner.Approval.{Sound, run-Sound}
use ci_failure_orchestrator.Foundation.Runner.Statuses.{Outcome, run-Closed}
use ci_failure_orchestrator.Foundation.Runner.Verdicts.{Closed}

abbrev fix : RepairProposal
fix = record {
  run_id = "run_1";
  proposal_id = "p1";
  files_changed = "pkg/date.py" ∷ [];
  patch = "@@ -1 +1 @@";
}

-- The first attempt fails its test, the second one passes.
abbrev sandbox_of : ℕ → SandboxResult
sandbox_of n = record {
  patch_applied = true;
  command_results = record { tool_name = "test_runner"; success = n == 2; step = none } ∷ [];
  changed_files = "pkg/date.py" ∷ [];
  timeout = false;
  error = none;
}

abbrev sample : Runner ℕ
sample = record {
  build_context = λ n attempts. some tt;
  classify = some tt;
  plan = λ n attempts. some n;
  run_tools = λ n plan. some [];
  propose = λ n plan. some fix;
  execute = λ n proposal. some (sandbox_of n);
  fingerprints = λ proposal ev sandbox. ("p", "f");
  builds_escalation = λ decision proposal. true;
  analyze_patch = λ patch. some [];
  classification = record { category = "test_failure"; confidence = 900 };
  retry_budget = default_budget;
  policy_config = default_config;
}

run-Sound_example : Sound sample 3 (run sample)
run-Sound_example = run-Sound sample

run-Closed_example : Outcome sample × Closed (run sample).run
run-Closed_example = run-Closed sample
