-- ===== src/Trust/Ends.antt =====
-- How a run of the gateway ends (trust_gateway.py): it does end, by its budget of attempts, and no
-- transition that it makes is refused.
use ci_failure_orchestrator.Common.{
  ℕ, ◌+◌, ◌-◌, ◌≤◌, suc, Bool, true, List, any, length, if_keeps, ◌≡◌, refl, arith,
}
use ci_failure_orchestrator.Loops.{
  Step, next, done, raised, stops, Returns, Holds, Ends, loop-Ends, Ends-stops, Ends-Returns,
}
use ci_failure_orchestrator.Trust.Machine.{proposed, is, transitions}
use ci_failure_orchestrator.Trust.Defs.{RetryBudget, GatewayResult, Metric}
use ci_failure_orchestrator.Trust.Attempt.{Collaborators, Gateway, GatewayError, AuditLog}
use ci_failure_orchestrator.Trust.Gateway.{round, initial, run}
use ci_failure_orchestrator.Trust.Accounts.{expected_error, Tally, Accounts, Good}
use ci_failure_orchestrator.Trust.Rounds.{round-Good}

module _ {Context Workspace : Type 0} (parts : Collaborators Context Workspace)
    (human_approved : Bool) (start : RetryBudget) where
  -- The gateway at the head of the loop, and the attempts that it has left.
  abbrev Ready : Gateway → Type 0
  Ready g =
      (any (is proposed) (transitions g.state.state) ≡ true)
      × Tally parts human_approved start 0 g.retry_budget g.attempts

  abbrev left : Gateway → ℕ
  left g = start.max_attempts - g.retry_budget.attempts

  abbrev Post : GatewayResult → Gateway → Type 0
  Post = Accounts parts human_approved start

  Good-Holds :
      (n : ℕ) (s : Step Gateway GatewayResult GatewayError)
      → Good parts human_approved start (n + 1) s
      → Holds Ready left Post expected_error (start.max_attempts - n) s
  Good-Holds n (next g) good = ((rw good.0 refl, good.1), ground (arith, good.2, good.3))
  Good-Holds n (done r g) good = good
  Good-Holds n (raised x) good = good

  run-Ends :
      (metrics : List Metric) (audit : AuditLog)
      → start.attempts ≤ start.max_attempts
      → start.total_cost ≤ start.max_total_cost
      → Ends Ready left Post expected_error (run parts human_approved start metrics audit)
  unfolding run
  run-Ends metrics audit within paid =
      if_keeps (Ends Ready left Post expected_error) (audit.raises (length audit.events)) _ _
        (λ _. refl)
        (λ _.
          loop-Ends Ready left Post expected_error (round parts human_approved)
            (λ g ready.
              Good-Holds g.retry_budget.attempts (round parts human_approved g)
                (round-Good parts human_approved start g ready.0 ready.1))
            (suc (left (initial start metrics audit))) (initial start metrics audit)
            (
              refl,
              record {
                same_attempts = refl;
                same_cost = refl;
                within = within;
                paid = paid;
                counted = ground arith;
                unverified = refl;
                all_grounded = tt;
              },
            )
            (ground arith))

module _ {Context Workspace : Type 0} (parts : Collaborators Context Workspace) where
  -- The gateway's loop ends, within as many rounds as the budget has attempts left and one more, for any
  -- collaborators and any audit log: it returns a result or raises. What it raises is an exception of
  -- the model, the fingerprint, the context builder, the policy, the executor or the verifier, one of
  -- appending to the audit log or of entering or leaving the workspace copy, or the ValueError of a
  -- negative cost, never that of a refused transition.
  pub run_stops :
      (human_approved : Bool) (b : RetryBudget) (metrics : List Metric) (audit : AuditLog)
      → b.attempts ≤ b.max_attempts
      → b.total_cost ≤ b.max_total_cost
      → stops expected_error (run parts human_approved b metrics audit) ≡ true
  run_stops human_approved b metrics audit within paid =
      Ends-stops (Ready parts human_approved b) (left parts human_approved b)
        (Post parts human_approved b) expected_error _
        (run-Ends parts human_approved b metrics audit within paid)

  -- A result of the gateway says `verified_success` exactly if one of its attempts passed the evaluation
  -- and the verification. For each attempt the policy allowed the proposal in the context that was
  -- built for it, the executor ran it in the workspace of that attempt, the evaluation is of what the
  -- executor returned, and the verification is what the verifier answered on the workspace as it was
  -- left, asked exactly if the evaluation succeeded. The budget has paid for as many attempts as are
  -- recorded, and neither their number nor their cost is over its limits.
  pub run-Accounts :
      (human_approved : Bool) (b : RetryBudget) (metrics : List Metric) (audit : AuditLog)
      → b.attempts ≤ b.max_attempts
      → b.total_cost ≤ b.max_total_cost
      → Returns (Accounts parts human_approved b) (run parts human_approved b metrics audit)
  run-Accounts human_approved b metrics audit within paid =
      Ends-Returns (Ready parts human_approved b) (left parts human_approved b)
        (Post parts human_approved b) expected_error _
        (run-Ends parts human_approved b metrics audit within paid)
