-- ===== src/Server/Jobs/Fencing.antt =====
-- Fencing in ci_failure_orchestrator/server/jobs.py: what is terminal stays as it is, whatever
-- statements of other workers come later.
use ci_failure_orchestrator.Common.{
  any-append, all-append, String, Bool, true, false, not, ◌||◌, List, [], ◌∷◌, ◌++◌, ◌≡◌, refl, ◌∙◌,
  arith, any, all, eq_iff, Bool-cases, inl, inr,
}
use ci_failure_orchestrator.Server.Jobs.Rows.{
  is_terminal, JobRecord, Table, update, clashes, Submission, new_job, Statement, execute, run, get,
  insert, claim_row, renew_row, complete_row, recover_row,
}
use ci_failure_orchestrator.Server.Jobs.Moves.{
  has_id, settled, IsMove, claim-IsMove, renew-IsMove, complete-IsMove, recover-IsMove, any-update,
  closed-update, get-update,
}

get-append :
    (job_id : String) (xs ys : Table)
    → any (has_id job_id) xs ≡ true
    → get job_id (xs ++ ys) ≡ get job_id xs
unfolding get
get-append job_id [] ys h = cc
get-append job_id (x ∷ xs) ys h = ground (arith, get-append job_id xs ys)

-- What a statement leaves alone in a table where the job is settled.
abbrev Frozen : String → Table → Table → Type 0
Frozen job_id rows later = (settled job_id later ≡ true) × (get job_id later ≡ get job_id rows)

update-Frozen :
    (job_id : String) {test : JobRecord → Bool} {set : JobRecord → JobRecord} (m : IsMove test set)
    (rows : Table)
    → settled job_id rows ≡ true
    → Frozen job_id rows (update test set rows)
update-Frozen job_id {test} {set} m rows h =
    let there : any (has_id job_id) rows ≡ true = ground arith in
    let shut : all (λ r. not (has_id job_id r) || is_terminal r.status) rows ≡ true =
      ground arith in
    (
      rw (any-update job_id m rows, there, closed-update job_id m rows shut),
      get-update job_id m rows shut,
    )

-- The rows with an identifier, when a row is inserted that clashes with none.
pub insert_apart :
    (job_id : String) (s : Submission) (rows : Table)
    → any (clashes (new_job s)) rows ≡ false
    → any (has_id job_id) rows ≡ true
    → has_id job_id (new_job s) ≡ false
unfolding clashes new_job
insert_apart job_id s [] h k = cc
insert_apart job_id s (r ∷ rows) h k = ground (
  arith,
  eq_iff r.job_id s.job_id,
  eq_iff r.job_id job_id,
  eq_iff s.job_id job_id,
  insert_apart job_id s rows,
)

insert-Frozen :
    (job_id : String) (s : Submission) (rows : Table)
    → any (clashes (new_job s)) rows ≡ false
    → settled job_id rows ≡ true
    → Frozen job_id rows (rows ++ new_job s ∷ [])
insert-Frozen job_id s rows apart h =
    let there : any (has_id job_id) rows ≡ true = ground arith in
    (
      ground (
        arith,
        any-append (has_id job_id) rows (new_job s ∷ []),
        all-append (λ r. not (has_id job_id r) || is_terminal r.status) rows (new_job s ∷ []),
        insert_apart job_id s rows,
      ),
      get-append job_id rows (new_job s ∷ []) there,
    )

pub execute-Frozen :
    (job_id : String) (s : Statement) (rows : Table)
    → settled job_id rows ≡ true
    → Frozen job_id rows (execute s rows)
unfolding execute
execute-Frozen job_id (insert s) rows h = elim (Bool-cases (any (clashes (new_job s)) rows)) [
  | inl clash ↦ rw clash (h, refl)
  | inr apart ↦ rw apart (insert-Frozen job_id s rows apart h)
]
execute-Frozen job_id (claim_row id worker lease now) rows h =
    update-Frozen job_id (claim-IsMove id worker lease now) rows h
execute-Frozen job_id (renew_row id worker lease now) rows h =
    update-Frozen job_id (renew-IsMove id worker lease now) rows h
execute-Frozen job_id (complete_row id worker c now) rows h =
    elim (Bool-cases (is_terminal c.status)) [
      | inl final ↦ rw final (update-Frozen job_id (complete-IsMove id worker c now) rows h)
      | inr not_final ↦ rw not_final (h, refl)
    ]
execute-Frozen job_id (recover_row id owner now) rows h =
    update-Frozen job_id (recover-IsMove id owner now) rows h

pub run-Frozen :
    (job_id : String) (ss : List Statement) (rows : Table)
    → settled job_id rows ≡ true
    → Frozen job_id rows (run ss rows)
unfolding run
run-Frozen job_id [] rows h = (h, refl)
run-Frozen job_id (s ∷ ss) rows h =
    let (now, same_now) = execute-Frozen job_id s rows h in
    let (later, same_later) = run-Frozen job_id ss (execute s rows) now in
    (later, same_later ∙ same_now)
