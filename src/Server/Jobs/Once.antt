-- ===== src/Server/Jobs/Once.antt =====
-- `complete` and `renew_lease` of ci_failure_orchestrator/server/jobs.py against workers that come late.
use ci_failure_orchestrator.Common.{
  ℕ, ◌≤◌, String, Bool, true, false, not, ◌||◌, List, [], ◌∷◌, Option, some, ◌≡◌, refl, arith, any,
  all, count, count-append, Bool-cases, inl, inr,
}
use ci_failure_orchestrator.Server.Jobs.Rows.{
  is_terminal, JobRecord, Table, update, Completion, owned, stale, set_renewed, set_completed,
  set_recovered, new_job, Statement, execute, run, get, insert, claim_row, renew_row, complete_row,
  recover_row,
}
use ci_failure_orchestrator.Server.Jobs.Methods.{complete, renew_lease}
use ci_failure_orchestrator.Server.Jobs.Moves.{
  has_id, settled, IsMove, claim-IsMove, renew-IsMove, complete-IsMove, recover-IsMove, any-update,
  count-update,
}
use ci_failure_orchestrator.Server.Jobs.Fencing.{insert_apart, run-Frozen}

count_none : (p : JobRecord → Bool) (rows : Table) → any p rows ≡ false → count p rows ≡ 0
count_none p [] h = refl
count_none p (r ∷ rows) h = ground (arith, count_none p rows)

any_none : (p : JobRecord → Bool) (rows : Table) → count p rows ≡ 0 → any p rows ≡ false
any_none p [] h = refl
any_none p (r ∷ rows) h = ground (arith, any_none p rows)

-- At most one row has an identifier.
pub execute_once :
    (job_id : String) (s : Statement) (rows : Table)
    → count (has_id job_id) rows ≤ 1
    → count (has_id job_id) (execute s rows) ≤ 1
unfolding execute
execute_once job_id (insert s) rows h = ground (
  arith,
  count-append (has_id job_id) rows (new_job s ∷ []),
  insert_apart job_id s rows,
  count_none (has_id job_id) rows,
)
execute_once job_id (claim_row id worker lease now) rows h =
    rw (count-update job_id (claim-IsMove id worker lease now) rows) h
execute_once job_id (renew_row id worker lease now) rows h =
    rw (count-update job_id (renew-IsMove id worker lease now) rows) h
execute_once job_id (complete_row id worker c now) rows h =
    elim (Bool-cases (is_terminal c.status)) [
      | inl final ↦ rw (final, count-update job_id (complete-IsMove id worker c now) rows) h
      | inr not_final ↦ rw not_final h
    ]
execute_once job_id (recover_row id owner now) rows h =
    rw (count-update job_id (recover-IsMove id owner now) rows) h

run_from_once :
    (job_id : String) (ss : List Statement) (rows : Table)
    → count (has_id job_id) rows ≤ 1
    → count (has_id job_id) (run ss rows) ≤ 1
unfolding run
run_from_once job_id [] rows h = h
run_from_once job_id (s ∷ ss) rows h =
    run_from_once job_id ss (execute s rows) (execute_once job_id s rows h)

pub run_once : (job_id : String) (ss : List Statement) → count (has_id job_id) (run ss []) ≤ 1
run_once job_id ss = run_from_once job_id ss [] (omega arith)

abbrev closed : String → JobRecord → Bool
closed job_id r = not (has_id job_id r) || is_terminal r.status

absent_closed :
    (job_id : String) (rows : Table)
    → any (has_id job_id) rows ≡ false
    → all (closed job_id) rows ≡ true
absent_closed job_id [] h = refl
absent_closed job_id (r ∷ rows) h = ground (arith, absent_closed job_id rows)

-- No worker owns a row of a settled job.
closed_unowned :
    (job_id worker : String) (rows : Table)
    → all (closed job_id) rows ≡ true
    → count (owned job_id worker) rows ≡ 0
unfolding owned
closed_unowned job_id worker [] h = refl
closed_unowned job_id worker (r ∷ rows) h = ground (arith, closed_unowned job_id worker rows)

update_none :
    (test : JobRecord → Bool) (set : JobRecord → JobRecord) (rows : Table)
    → count test rows ≡ 0
    → update test set rows ≡ rows
unfolding update
update_none test set [] h = refl
update_none test set (r ∷ rows) h = ground (arith, update_none test set rows)

-- A move to a terminal status that finds the one row of a job settles the job.
module _ (job_id : String) {test : JobRecord → Bool} {set : JobRecord → JobRecord}
    (m : IsMove test set) (hit : (r : JobRecord) → test r ≡ true → has_id job_id r ≡ true)
    (final : (r : JobRecord) → is_terminal (set r).status ≡ true) where
  found_at_most : (rows : Table) → count test rows ≤ count (has_id job_id) rows
  found_at_most [] = omega arith
  found_at_most (r ∷ rows) = ground (arith, hit r, found_at_most rows)

  update-settled :
      (rows : Table)
      → count (has_id job_id) rows ≤ 1
      → count test rows ≡ 1
      → settled job_id (update test set rows) ≡ true
  unfolding update
  update-settled [] u h = ground arith
  update-settled (r ∷ rows) u h = elim (Bool-cases (test r)) [
    | inl mine ↦
        let here : has_id job_id r ≡ true = hit r mine in
        let gone : any (has_id job_id) rows ≡ false =
          any_none (has_id job_id) rows (ground arith) in
        let same : any (has_id job_id) (update test set rows) ≡ false =
          rw (any-update job_id m rows) gone in
        ground (arith, m.same_id r, final r, absent_closed job_id (update test set rows))
    | inr other ↦ ground (arith, found_at_most rows, update-settled rows)
  ]

owned_hit :
    (job_id worker : String) (r : JobRecord) → owned job_id worker r ≡ true → has_id job_id r ≡ true
unfolding owned
owned_hit job_id worker r h = ground arith

stale_hit :
    (job_id : String) (now : ℕ) (r : JobRecord) → stale job_id now r ≡ true → has_id job_id r ≡ true
unfolding stale
stale_hit job_id now r h = ground arith

completed_final :
    (c : Completion) (now : ℕ) (r : JobRecord)
    → is_terminal c.status ≡ true
    → is_terminal (set_completed c now r).status ≡ true
unfolding set_completed
completed_final c now r f = f

recovered_final :
    (owner : Option String) (now : ℕ) (r : JobRecord)
    → is_terminal (set_recovered owner now r).status ≡ true
unfolding set_recovered
recovered_final owner now r = refl

-- What a settled job answers to a completion and to a renewal.
settled_refuses :
    (job_id worker : String) (c : Completion) (now : ℕ) (rows : Table)
    → is_terminal c.status ≡ true
    → settled job_id rows ≡ true
    → complete job_id worker c now rows ≡ some (false, rows)
unfolding complete execute
settled_refuses job_id worker c now rows f h =
    let none_owned = closed_unowned job_id worker rows (ground arith) in
    rw (f, none_owned, update_none (owned job_id worker) (set_completed c now) rows none_owned) refl

settled_keeps_lease :
    (job_id worker : String) (lease now : ℕ) (rows : Table)
    → settled job_id rows ≡ true
    → renew_lease job_id worker lease now rows ≡ (false, rows)
unfolding renew_lease execute
settled_keeps_lease job_id worker lease now rows h =
    let none_owned = closed_unowned job_id worker rows (ground arith) in
    rw (none_owned, update_none (owned job_id worker) (set_renewed lease now) rows none_owned) refl

complete-settled :
    (job_id worker : String) (c : Completion) (now : ℕ) (rows later : Table)
    → count (has_id job_id) rows ≤ 1
    → complete job_id worker c now rows ≡ some (true, later)
    → settled job_id later ≡ true
unfolding complete execute
complete-settled job_id worker c now rows later u h = elim (Bool-cases (is_terminal c.status)) [
  | inl final ↦
      let settled_now =
        update-settled job_id (complete-IsMove job_id worker c now) (owned_hit job_id worker)
          (λ r. completed_final c now r final) rows u in
      ground (arith, settled_now)
  | inr not_final ↦ ground arith
]

-- A job is completed once. After any interleaving of statements on an empty table, if a completion of
-- the job by the worker reports success, then after any further interleaving every completion with a
-- terminal status, by whichever worker, reports failure and leaves the table alone, and the job reads
-- as it did right after the first completion.
pub complete_once :
    (before : List Statement) (job_id worker : String) (c : Completion) (now : ℕ) (rows : Table)
    → complete job_id worker c now (run before []) ≡ some (true, rows)
    → (after : List Statement) (late_worker : String) (late : Completion) (late_now : ℕ)
    → is_terminal late.status ≡ true
    → (complete job_id late_worker late late_now (run after rows) ≡ some (false, run after rows))
      × (get job_id (run after rows) ≡ get job_id rows)
complete_once before job_id worker c now rows h after late_worker late late_now f =
    let done =
      complete-settled job_id worker c now (run before []) rows (run_once job_id before) h in
    let (still, same) = run-Frozen job_id after rows done in
    (settled_refuses job_id late_worker late late_now (run after rows) f still, same)

-- A lost lease fences its worker out. After any interleaving of statements on an empty table, if the
-- recovery of the job finds its row running with an expired lease, then after any further interleaving
-- every renewal and every completion of the job with a terminal status report failure and leave the
-- table alone, and the job reads as the recovery left it.
pub recovered_for_good :
    (before : List Statement) (job_id : String) (owner : Option String) (now : ℕ)
    → count (stale job_id now) (run before []) ≡ 1
    → (after : List Statement) (worker : String) (late : Completion) (lease late_now : ℕ)
    → is_terminal late.status ≡ true
    → let recovered = execute (recover_row job_id owner now) (run before []) in
      (complete job_id worker late late_now (run after recovered)
        ≡ some (false, run after recovered))
      × (renew_lease job_id worker lease late_now (run after recovered)
          ≡ (false, run after recovered))
      × (get job_id (run after recovered) ≡ get job_id recovered)
unfolding execute
recovered_for_good before job_id owner now h after worker late lease late_now f =
    let done =
      update-settled job_id (recover-IsMove job_id owner now) (stale_hit job_id now)
        (recovered_final owner now) (run before []) (run_once job_id before) h in
    let (still, same) =
      run-Frozen job_id after (update (stale job_id now) (set_recovered owner now) (run before []))
        done in
    (
      settled_refuses job_id worker late late_now _ f still,
      settled_keeps_lease job_id worker lease late_now _ still,
      same,
    )
