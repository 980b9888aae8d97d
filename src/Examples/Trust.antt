-- ===== src/Examples/Trust.antt =====
-- The theorems on the trust gateway at a concrete run: the first attempt fails its verification and the
-- second passes.
use ci_failure_orchestrator.Common.{
  ℕ, Bool, true, false, [], ◌∷◌, none, some, ◌==◌, ◌≡◌, refl, str_eq, arith, if◌then◌else◌,
  ends_with,
}
use ci_failure_orchestrator.Trust.Defs.{RepairProposal, pos, allow, RetryBudget, consume, evaluate}
use ci_failure_orchestrator.Trust.Attempt.{
  Collaborators, executed, after_verification, fail_attempt, succeed, after_failure,
}
use ci_failure_orchestrator.Trust.Policy
use ci_failure_orchestrator.Trust.Facts.{TrustContext, public_data}
use ci_failure_orchestrator.Trust.Policy.{shipped_setting, shipped_rules}
use ci_failure_orchestrator.Trust.Approval.{
  approved_by as with_approval, upgraded_option, evaluate-upgraded,
}
use ci_failure_orchestrator.Trust.Shipped.{allows, harmless, shipped_rules_allow}
use ci_failure_orchestrator.Trust.Gateway.{
  run, round, after_request, check_proposal, check_fingerprint, after_context, after_policy,
  by_decision, approved_by, after_budget, in_sandbox, execute_in, after_execution,
}
use ci_failure_orchestrator.Trust.Accounts.{Accounts, expected_error}
use ci_failure_orchestrator.Loops.{Run, returned, loop, stops, Returns}
use ci_failure_orchestrator.Trust.Attempt.{Gateway, GatewayError, AuditLog}
use ci_failure_orchestrator.Trust.Defs.{GatewayResult}
use ci_failure_orchestrator.Trust.Ends.{run_stops, run-Accounts}

abbrev context : TrustContext
context = record {
  provider_known = true;
  jurisdictions = [];
  data_residency = none;
  data_classification = public_data;
  destination_country = none;
  external_provider = some false;
  data_leaves_host = none;
  capabilities_pass = false;
  requested_operation = "write";
  destructive = false;
  human_approved = false;
}

evaluate-upgraded_example :
    Policy.evaluate shipped_setting shipped_rules (with_approval true context)
    ≡ upgraded_option (Policy.evaluate shipped_setting shipped_rules (with_approval false context))
evaluate-upgraded_example = evaluate-upgraded shipped_setting shipped_rules context refl

shipped_rules_allow_example :
    allows (Policy.evaluate shipped_setting shipped_rules context) ≡ harmless context
shipped_rules_allow_example = shipped_rules_allow context refl

abbrev repair : ℕ → RepairProposal
repair n = record {
  proposal_id = if n == 1 then "first" else "second";
  tool = "file.repair";
  operation = "write";
  arguments = ("path", "app.py") ∷ ("strategy", "replace_text") ∷ [];
  estimated_cost = pos 100;
  reason_for_retry = some "the check failed";
  changed_assumption = some "another line";
}

-- A workspace is the number of the attempt; the verification passes in the second.
abbrev parts : Collaborators Unit ℕ
parts = record {
  generate_tool_request = λ n previous. some (repair n);
  fingerprint = λ p. some p.proposal_id;
  build_context = λ p approved. some tt;
  evaluate_policy = λ c. some (record { decision = allow; rule_id = "DEFAULT" });
  isolate = λ n. some n;
  cleanup_raises = λ n. false;
  execute = λ p w. executed (record { command_success = true; changed_files = "app.py" ∷ [] }) w;
  verify = λ p w. some (record { success = w == 2; checks = []; failure_reason = none });
  out_of_time = λ n. false;
}

abbrev log : AuditLog
log = record { events = []; raises = λ n. false }

abbrev budget : RetryBudget
budget = record { max_attempts = 3; max_total_cost = 1000; attempts = 0; total_cost = 0 }

run_stops_example : stops expected_error (run parts false budget [] log) ≡ true
run_stops_example = run_stops parts false budget [] log (ground arith) (ground arith)

run-Accounts_example : Returns (Accounts parts false budget) (run parts false budget [] log)
run-Accounts_example = run-Accounts parts false budget [] log (ground arith) (ground arith)

abbrev says_success : Run Gateway GatewayResult GatewayError → Bool
says_success (returned r g) = str_eq r.status "verified_success"
says_success _ = false

succeeds : says_success (run parts false budget [] log) ≡ true
unfolding run loop round after_request check_proposal after_context after_policy by_decision
    approved_by after_budget in_sandbox execute_in after_execution after_verification succeed
    fail_attempt after_failure consume evaluate ends_with check_fingerprint
succeeds = refl
