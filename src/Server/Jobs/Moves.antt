-- ===== src/Server/Jobs/Moves.antt =====
-- The updates of ci_failure_orchestrator/server/jobs.py as moves of single rows: each finds only rows
-- that are not terminal, and keeps the identifiers and the request.
use ci_failure_orchestrator.Common.{
  ℕ, String, Bool, true, false, not, ◌&&◌, ◌||◌, [], ◌∷◌, Option, ◌≡◌, refl, ap₂, arith, any, all,
  count, str_eq, if◌then◌else◌,
}
use ci_failure_orchestrator.Server.Jobs.Rows.{
  is_terminal, JobRecord, Table, update, Completion, claimable, owned, stale, set_claimed,
  set_renewed, set_completed, set_recovered, get,
}

abbrev pub has_id : String → JobRecord → Bool
has_id job_id r = str_eq r.job_id job_id

-- The job has a row, and every row of it is terminal.
abbrev pub settled : String → Table → Bool
settled job_id rows =
    any (has_id job_id) rows && all (λ r. not (has_id job_id r) || is_terminal r.status) rows

-- An update that finds only rows that are not terminal, and keeps their identifiers and requests.
pub record IsMove (test : JobRecord → Bool) (set : JobRecord → JobRecord) : Type 0 where
  pub open_rows : (r : JobRecord) → test r ≡ true → is_terminal r.status ≡ false
  pub same_id : (r : JobRecord) → (set r).job_id ≡ r.job_id
  pub same_key : (r : JobRecord) → (set r).idempotency_key ≡ r.idempotency_key
  pub same_digest : (r : JobRecord) → (set r).request_sha256 ≡ r.request_sha256

pub claim-IsMove :
    (id worker : String) (lease now : ℕ) → IsMove (claimable id) (set_claimed worker lease now)
unfolding claimable set_claimed
claim-IsMove id worker lease now = record {
  open_rows = λ r h. ground arith;
  same_id = λ r. refl;
  same_key = λ r. refl;
  same_digest = λ r. refl;
}

pub renew-IsMove :
    (id worker : String) (lease now : ℕ) → IsMove (owned id worker) (set_renewed lease now)
unfolding owned set_renewed
renew-IsMove id worker lease now = record {
  open_rows = λ r h. ground arith;
  same_id = λ r. refl;
  same_key = λ r. refl;
  same_digest = λ r. refl;
}

pub complete-IsMove :
    (id worker : String) (c : Completion) (now : ℕ) → IsMove (owned id worker) (set_completed c now)
unfolding owned set_completed
complete-IsMove id worker c now = record {
  open_rows = λ r h. ground arith;
  same_id = λ r. refl;
  same_key = λ r. refl;
  same_digest = λ r. refl;
}

pub recover-IsMove :
    (id : String) (owner : Option String) (now : ℕ)
    → IsMove (stale id now) (set_recovered owner now)
unfolding stale set_recovered
recover-IsMove id owner now = record {
  open_rows = λ r h. ground arith;
  same_id = λ r. refl;
  same_key = λ r. refl;
  same_digest = λ r. refl;
}

module _ (job_id : String) {test : JobRecord → Bool} {set : JobRecord → JobRecord}
    (m : IsMove test set) where
  abbrev pub moved : JobRecord → JobRecord
  moved r = if test r then set r else r

  moved_id : (r : JobRecord) → has_id job_id (moved r) ≡ has_id job_id r
  moved_id r = ground (arith, m.same_id r)

  abbrev pub closed : JobRecord → Bool
  closed r = not (has_id job_id r) || is_terminal r.status

  moved-closed : (r : JobRecord) → closed r ≡ true → closed (moved r) ≡ true
  moved-closed r h = ground (arith, m.same_id r, m.open_rows r)

  moved_row : (r : JobRecord) → closed r ≡ true → has_id job_id r ≡ true → moved r ≡ r
  moved_row r h k = ground (arith, m.open_rows r)

  pub any-update :
      (rows : Table) → any (has_id job_id) (update test set rows) ≡ any (has_id job_id) rows
  unfolding update
  any-update [] = refl
  any-update (r ∷ rows) = ap₂ ◌||◌ (moved_id r) (any-update rows)

  pub count-update :
      (rows : Table) → count (has_id job_id) (update test set rows) ≡ count (has_id job_id) rows
  unfolding update
  count-update [] = refl
  count-update (r ∷ rows) = rw (moved_id r, count-update rows)

  pub closed-update :
      (rows : Table) → all closed rows ≡ true → all closed (update test set rows) ≡ true
  unfolding update
  closed-update [] h = refl
  closed-update (r ∷ rows) h = ground (arith, moved-closed r, closed-update rows)

  pub get-update :
      (rows : Table) → all closed rows ≡ true → get job_id (update test set rows) ≡ get job_id rows
  unfolding update get
  get-update [] h = refl
  get-update (r ∷ rows) h = ground (arith, moved_id r, moved_row r, get-update rows)
