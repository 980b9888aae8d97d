-- ===== src/Server/Jobs/Stages.antt =====
-- The stages of a job of ci_failure_orchestrator/server/jobs.py under every interleaving of statements.
use ci_failure_orchestrator.Common.{
  all-append, ℕ, String, Bool, true, false, not, ◌&&◌, List, [], ◌∷◌, Option, none, some, ◌≡◌, refl,
  arith, all, ◌==◌, Bool-cases, inl, inr,
}
use ci_failure_orchestrator.Server.Jobs.Rows.{
  is_terminal, JobRecord, Table, update, Completion, claimable, owned, stale, set_claimed,
  set_renewed, set_completed, set_recovered, new_job, Statement, execute, run, queued, running,
  insert, claim_row, renew_row, complete_row, recover_row,
}

abbrev present {ℓ} : {A : Type ℓ} → Option A → Bool
present none = false
present (some a) = true

-- What the columns of a row say, by its status.
abbrev pub consistent : JobRecord → Bool
consistent r = elim r.status [
  | queued ↦
      r.claim_count == 0
      && not (present r.lease_owner)
      && not (present r.lease_expires_at)
      && not (present r.started_at)
      && not (present r.finished_at)
  | running ↦
      r.claim_count == 1
      && present r.lease_owner
      && present r.lease_expires_at
      && present r.started_at
      && not (present r.finished_at)
  | _ ↦
      r.claim_count == 1
      && present r.lease_owner
      && not (present r.lease_expires_at)
      && present r.started_at
      && present r.finished_at
]

module _ (P : JobRecord → Bool) where
  all-update :
      (test : JobRecord → Bool) (set : JobRecord → JobRecord)
      → ((r : JobRecord) → test r ≡ true → P r ≡ true → P (set r) ≡ true)
      → (rows : Table) → all P rows ≡ true
      → all P (update test set rows) ≡ true
  unfolding update
  all-update test set keep [] h = refl
  all-update test set keep (r ∷ rows) h = ground (arith, keep r, all-update test set keep rows)

claimed-consistent :
    (job_id worker : String) (lease now : ℕ) (r : JobRecord)
    → claimable job_id r ≡ true
    → consistent r ≡ true
    → consistent (set_claimed worker lease now r) ≡ true
unfolding claimable set_claimed
claimed-consistent job_id worker lease now r t c = ground arith

renewed-consistent :
    (job_id worker : String) (lease now : ℕ) (r : JobRecord)
    → owned job_id worker r ≡ true
    → consistent r ≡ true
    → consistent (set_renewed lease now r) ≡ true
unfolding owned set_renewed
renewed-consistent job_id worker lease now r t c = ground arith

completed-consistent :
    (job_id worker : String) (done : Completion) (now : ℕ) (r : JobRecord)
    → is_terminal done.status ≡ true
    → owned job_id worker r ≡ true
    → consistent r ≡ true
    → consistent (set_completed done now r) ≡ true
unfolding owned set_completed
completed-consistent job_id worker done now r f t c = ground arith

recovered-consistent :
    (job_id : String) (owner : Option String) (now : ℕ) (r : JobRecord)
    → stale job_id now r ≡ true
    → consistent r ≡ true
    → consistent (set_recovered owner now r) ≡ true
unfolding stale set_recovered
recovered-consistent job_id owner now r t c = ground arith

-- Every statement keeps every row consistent.
execute-consistent :
    (s : Statement) (rows : Table)
    → all consistent rows ≡ true
    → all consistent (execute s rows) ≡ true
unfolding execute new_job
execute-consistent (insert s) rows h = ground (arith, all-append consistent rows (new_job s ∷ []))
execute-consistent (claim_row job_id worker lease now) rows h =
    all-update consistent _ _ (claimed-consistent job_id worker lease now) rows h
execute-consistent (renew_row job_id worker lease now) rows h =
    all-update consistent _ _ (renewed-consistent job_id worker lease now) rows h
execute-consistent (complete_row job_id worker done now) rows h =
    elim (Bool-cases (is_terminal done.status)) [
      | inl f ↦
          rw f (
            all-update consistent _ _ (λ r. completed-consistent job_id worker done now r f) rows h)
      | inr f ↦ rw f h
    ]
execute-consistent (recover_row job_id owner now) rows h =
    all-update consistent _ _ (recovered-consistent job_id owner now) rows h

run_from-consistent :
    (ss : List Statement) (rows : Table)
    → all consistent rows ≡ true
    → all consistent (run ss rows) ≡ true
unfolding run
run_from-consistent [] rows h = h
run_from-consistent (s ∷ ss) rows h =
    run_from-consistent ss (execute s rows) (execute-consistent s rows h)

-- After any interleaving of submissions, claims, renewals, completions and recoveries on an empty
-- table, every row is consistent: a queued job has never been claimed and has no lease, a running job
-- was claimed once and has an owner and a lease, and a terminal job was claimed once and has no lease.
pub run-consistent : (ss : List Statement) → all consistent (run ss []) ≡ true
run-consistent ss = run_from-consistent ss [] refl
