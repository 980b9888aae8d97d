-- ===== src/Examples/Ledger.antt =====
-- Deliveries of ci_failure_orchestrator/task_idempotency.py, with numbers as results.
use ci_failure_orchestrator.Common.{
  ℕ, ◌≤◌, arith, true, false, List, [], ◌∷◌, none, some, ◌≡◌, refl,
}
use ci_failure_orchestrator.Ledger.{
  CompletionRecord, Ledger, get, put, get_completed, try_claim, complete, conclude, claimed_record,
  completed_record, done, deliver, delivered,
}
use ci_failure_orchestrator.Ledger.Completed.{Statement, claim, finish, abandon, run, deliver_once}
use ci_failure_orchestrator.Ledger.Lease.{lease_excludes}
use ci_failure_orchestrator.Ledger.Slow.{taking_over, slow_delivery_runs_twice}

abbrev nothing : Ledger ℕ
nothing key = none

abbrev as_is : ℕ → ℕ
as_is n = n

abbrev after_first : Ledger ℕ
after_first = (deliver as_is (λ l. l) (λ l. l) "a" "fix" 30 100 5 (some 7) nothing).1

first_delivery :
    deliver as_is (λ l. l) (λ l. l) "a" "fix" 30 100 5 (some 7) nothing
    ≡ (delivered (record { executed = true; replayed = false; result = some 7 }), after_first)
unfolding deliver conclude complete try_claim put get get_completed
first_delivery = refl

abbrev retries : List (Statement ℕ)
retries = claim "fix" "b" 30 106 ∷ finish "fix" 8 "b" 107 ∷ []

deliver_once_example :
    (r : CompletionRecord ℕ) × (after_first "fix" ≡ some r)
    × (deliver as_is (λ l. l) (λ l. l) "b" "fix" 30 110 5 (some 9) (run as_is retries after_first)
        ≡ (
          delivered (record { executed = false; replayed = true; result = r.result }),
          run as_is retries after_first,
        ))
deliver_once_example =
    deliver_once as_is (λ l. l) (λ l. l) "a" "fix" 30 100 5 (some 7) nothing after_first
      (record { executed = true; replayed = false; result = some 7 }) refl first_delivery retries
      (λ l. l) (λ l. l) "b" 30 110 5 (some 9)

abbrev held : Ledger ℕ
held = (try_claim "fix" "a" 30 100 nothing).1

abbrev holder : CompletionRecord ℕ
holder = claimed_record "fix" "a" 130 100

held_eq : try_claim "fix" "a" 30 100 nothing ≡ (some holder, held)
unfolding try_claim get
held_eq = refl

abbrev intruders : List (Statement ℕ)
intruders = claim "fix" "b" 30 110 ∷ abandon "fix" "c" 111 ∷ []

lease_excludes_example :
    (try_claim "fix" "c" 30 120 (run as_is intruders held) ≡ (none, run as_is intruders held))
    × ((complete as_is "fix" 7 "a" 140 (run as_is intruders held)).0
        ≡ done (completed_record 7 140 holder))
lease_excludes_example =
    lease_excludes as_is "fix" "a" 30 100 nothing held holder held_eq refl intruders refl "c" 30 120
      140 7 refl refl

lease_over : 130 ≤ 131
lease_over = omega arith

slow_delivery_runs_twice_example :
    ((deliver as_is
        (λ l. l)
        (λ l. (taking_over as_is "fix" "b" 30 131 5 8 l).1)
        "a"
        "fix"
        30
        100
        60
        (some 7)
        nothing).0
      ≡ delivered (record { executed = true; replayed = false; result = some 7 }))
    × ((taking_over as_is "fix" "b" 30 131 5 8 (try_claim "fix" "a" 30 100 nothing).1).0
        ≡ delivered (record { executed = true; replayed = false; result = some 8 }))
slow_delivery_runs_twice_example =
    slow_delivery_runs_twice as_is "fix" "a" "b" 30 100 60 30 131 5 7 8 nothing refl refl lease_over
