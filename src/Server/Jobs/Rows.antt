-- ===== src/Server/Jobs/Rows.antt =====
-- The `jobs` table of ci_failure_orchestrator/server/db.py and the SQL statements by which
-- server/jobs.py writes it.
use Prim.Native.String
use ci_failure_orchestrator.Common.{
  ℕ, ◌+◌, String, Bool, true, false, ◌&&◌, ◌||◌, List, [], ◌∷◌, ◌++◌, map, Option, none, some, any,
  find?, ltb, str_eq, if◌then◌else◌,
}

pub data JobStatus : Type 0 where
  queued running completed failed requires_review : JobStatus

abbrev pub is_queued : JobStatus → Bool
is_queued queued = true
is_queued _ = false

abbrev pub is_running : JobStatus → Bool
is_running running = true
is_running _ = false

-- `TERMINAL_JOB_STATUSES`.
abbrev pub is_terminal : JobStatus → Bool
is_terminal completed = true
is_terminal failed = true
is_terminal requires_review = true
is_terminal _ = false

pub record JobRecord : Type 0 where
  pub job_id : String
  pub run_id : String
  pub status : JobStatus
  pub payload : String
  pub request_sha256 : String
  pub idempotency_key : Option String
  pub claim_count : ℕ
  pub lease_owner : Option String
  pub lease_expires_at : Option ℕ
  pub workflow_status : Option String
  pub failure_class : Option String
  pub error : Option String
  pub created_at : ℕ
  pub updated_at : ℕ
  pub started_at : Option ℕ
  pub finished_at : Option ℕ

abbrev pub Table : Type 0
Table = List JobRecord

-- `UPDATE ... WHERE test SET set`, and its row count.
unfoldable pub update : (JobRecord → Bool) → (JobRecord → JobRecord) → Table → Table
update test set = map (λ r. if test r then set r else r)

abbrev pub key_is : String → Option String → Bool
key_is key none = false
key_is key (some k) = str_eq k key

-- The row that the new one clashes with: `job_id`, `run_id` and `idempotency_key` are unique.
unfoldable pub clashes : JobRecord → JobRecord → Bool
clashes new r =
    str_eq r.job_id new.job_id
    || str_eq r.run_id new.run_id
    || (elim new.idempotency_key [ none ↦ false | some key ↦ key_is key r.idempotency_key ])

pub record Completion : Type 0 where
  pub status : JobStatus
  pub workflow_status : Option String
  pub failure_class : Option String
  pub error : Option String

-- The `WHERE` clauses of the updates.
unfoldable pub claimable : String → JobRecord → Bool
claimable job_id r = str_eq r.job_id job_id && is_queued r.status

unfoldable pub owned : String → String → JobRecord → Bool
owned job_id worker r = str_eq r.job_id job_id && is_running r.status && key_is worker r.lease_owner

unfoldable pub expired : ℕ → Option ℕ → Bool
expired now none = false
expired now (some t) = ltb t now

unfoldable pub stale : String → ℕ → JobRecord → Bool
unfolding expired
stale job_id now r = str_eq r.job_id job_id && is_running r.status && expired now r.lease_expires_at

-- The `SET` clauses.
unfoldable pub set_claimed : String → ℕ → ℕ → JobRecord → JobRecord
set_claimed worker lease_seconds now r = record r {
  status = running;
  lease_owner = some worker;
  lease_expires_at = some (now + lease_seconds);
  claim_count = r.claim_count + 1;
  started_at = some now;
  updated_at = now;
}

unfoldable pub set_renewed : ℕ → ℕ → JobRecord → JobRecord
set_renewed lease_seconds now r = record r {
  lease_expires_at = some (now + lease_seconds);
  updated_at = now;
}

unfoldable pub set_completed : Completion → ℕ → JobRecord → JobRecord
set_completed c now r = record r {
  status = c.status;
  workflow_status = c.workflow_status;
  failure_class = c.failure_class;
  error = c.error;
  lease_expires_at = none;
  finished_at = some now;
  updated_at = now;
}

-- `owner` is the lease owner that the select before the update had read; `None` prints as "None".
stale_error : Option String → String
stale_error owner =
    String.◌++◌ "worker lease expired before completion (owner="
      (String.◌++◌ (elim owner [ none ↦ "None" | some o ↦ o ]) ")")

unfoldable pub set_recovered : Option String → ℕ → JobRecord → JobRecord
unfolding stale_error
set_recovered owner now r = record r {
  status = requires_review;
  error = some (stale_error owner);
  lease_expires_at = none;
  finished_at = some now;
  updated_at = now;
}

-- What `enqueue` inserts, with the identifiers and the time that it draws.
pub record Submission : Type 0 where
  pub job_id : String
  pub run_id : String
  pub payload : String
  pub request_sha256 : String
  pub idempotency_key : Option String
  pub now : ℕ

unfoldable pub new_job : Submission → JobRecord
new_job s = record {
  job_id = s.job_id;
  run_id = s.run_id;
  status = queued;
  payload = s.payload;
  request_sha256 = s.request_sha256;
  idempotency_key = s.idempotency_key;
  claim_count = 0;
  lease_owner = none;
  lease_expires_at = none;
  workflow_status = none;
  failure_class = none;
  error = none;
  created_at = s.now;
  updated_at = s.now;
  started_at = none;
  finished_at = none;
}

-- The statements that write.
pub data Statement : Type 0 where
  insert : Submission → Statement
  claim_row : String → String → ℕ → ℕ → Statement
  renew_row : String → String → ℕ → ℕ → Statement
  complete_row : String → String → Completion → ℕ → Statement
  recover_row : String → Option String → ℕ → Statement

-- An insert that clashes raises `IntegrityError` and changes nothing; `complete` raises before its
-- statement if the status is not terminal.
unfoldable pub execute : Statement → Table → Table
execute (insert s) rows = if any (clashes (new_job s)) rows then rows else rows ++ new_job s ∷ []
execute (claim_row job_id worker lease now) rows =
    update (claimable job_id) (set_claimed worker lease now) rows
execute (renew_row job_id worker lease now) rows =
    update (owned job_id worker) (set_renewed lease now) rows
execute (complete_row job_id worker c now) rows =
    if is_terminal c.status then update (owned job_id worker) (set_completed c now) rows else rows
execute (recover_row job_id owner now) rows =
    update (stale job_id now) (set_recovered owner now) rows

unfoldable pub run : List Statement → Table → Table
run [] rows = rows
run (s ∷ rest) rows = run rest (execute s rows)

-- `get`.
unfoldable pub get : String → Table → Option JobRecord
get job_id = find? (λ r. str_eq r.job_id job_id)
