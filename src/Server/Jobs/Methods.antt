-- ===== src/Server/Jobs/Methods.antt =====
-- The methods of `JobQueue` (ci_failure_orchestrator/server/jobs.py) as compositions of statements.
use Prim.Native.String
use Prim.Native.Nat.{Ordering}
use ci_failure_orchestrator.Common.{
  ℕ, String, Bool, true, false, ◌&&◌, ◌||◌, List, [], ◌∷◌, map, Option, none, some, any, count,
  find?, select, take, ltb, ◌==◌, str_eq, if◌then◌else◌,
}
use ci_failure_orchestrator.Server.Jobs.Rows.{
  is_queued, is_running, is_terminal, JobRecord, Table, key_is, clashes, Completion, claimable,
  owned, expired, stale, Submission, new_job, execute, get, insert, claim_row, renew_row,
  complete_row, recover_row,
}

pub data EnqueueResult : Type 0 where
  created replayed : JobRecord → EnqueueResult
  conflict : EnqueueResult
  integrity_error : EnqueueResult

-- `_by_key`.
unfoldable pub by_key : String → Table → Option JobRecord
by_key key = find? (λ r. key_is key r.idempotency_key)

-- `_replay`.
unfoldable pub replay : JobRecord → String → EnqueueResult
replay existing digest =
    if str_eq existing.request_sha256 digest then replayed existing else conflict

-- `if idempotency_key`, and the key that it guards.
unfoldable pub key_in_use : Option String → Table → Option JobRecord
unfolding by_key
key_in_use none rows = none
key_in_use (some key) rows = if str_eq key "" then none else by_key key rows

-- The insert of `enqueue`; its failure is answered by another look-up of the key.
unfoldable pub insert_or_replay : Submission → Table → EnqueueResult × Table
insert_or_replay s rows =
    if any (clashes (new_job s)) rows
    then (
      elim (key_in_use s.idempotency_key rows) [
        | some existing ↦ replay existing s.request_sha256
        | none ↦ integrity_error
      ],
      rows,
    )
    else (created (new_job s), execute (insert s) rows)

-- `enqueue`. `others` is what other transactions commit between the look-up and the insert.
unfoldable pub enqueue : (Table → Table) → Submission → Table → EnqueueResult × Table
unfolding insert_or_replay
enqueue others s rows = elim (key_in_use s.idempotency_key rows) [
  | some existing ↦ (replay existing s.request_sha256, rows)
  | none ↦ insert_or_replay s (others rows)
]

-- `complete`, whose result is whether a row was updated; `none` is the `ValueError`.
unfoldable pub complete : String → String → Completion → ℕ → Table → Option (Bool × Table)
complete job_id worker c now rows =
    if is_terminal c.status
    then some
        (count (owned job_id worker) rows == 1, execute (complete_row job_id worker c now) rows)
    else none

-- `renew_lease`.
unfoldable pub renew_lease : String → String → ℕ → ℕ → Table → Bool × Table
renew_lease job_id worker lease now rows =
    (count (owned job_id worker) rows == 1, execute (renew_row job_id worker lease now) rows)

-- `ORDER BY created_at, job_id`.
text_leb : String → String → Bool
text_leb a b = elim (String.compare a b) [ Ordering.gt ↦ false | _ ↦ true ]

unfoldable pub before : JobRecord → JobRecord → Bool
unfolding text_leb
before a b =
    ltb a.created_at b.created_at || (a.created_at == b.created_at && text_leb a.job_id b.job_id)

unfoldable pub insert_in_order : JobRecord → List JobRecord → List JobRecord
insert_in_order r [] = r ∷ []
insert_in_order r (q ∷ qs) = if before r q then r ∷ q ∷ qs else q ∷ insert_in_order r qs

unfoldable pub in_order : List JobRecord → List JobRecord
unfolding insert_in_order
in_order [] = []
in_order (r ∷ rs) = insert_in_order r (in_order rs)

-- The candidates of `claim`.
unfoldable pub candidates : Table → List String
candidates rows =
    map (λ (r : JobRecord). r.job_id) (take 10 (in_order (select (λ r. is_queued r.status) rows)))

-- The loop of `claim` over the candidates.
unfoldable pub claim_first : String → ℕ → ℕ → List String → Table → Option JobRecord × Table
claim_first worker lease now [] rows = (none, rows)
claim_first worker lease now (job_id ∷ rest) rows =
    let claimed = execute (claim_row job_id worker lease now) rows in
    let later = claim_first worker lease now rest claimed in
    if count (claimable job_id) rows == 1 then (get job_id claimed, claimed) else later

-- `claim`. `others` is what other transactions commit behind the select of the candidates.
unfoldable pub claim : (Table → Table) → String → ℕ → ℕ → Table → Option JobRecord × Table
claim others worker lease now rows = claim_first worker lease now (candidates rows) (others rows)

-- The loop of `recover_stale` over the jobs that its select found: the jobs moved.
unfoldable pub recover_each : ℕ → List JobRecord → Table → List JobRecord × Table
recover_each now [] rows = ([], rows)
recover_each now (r ∷ rest) rows =
    let recovered = execute (recover_row r.job_id r.lease_owner now) rows in
    let (moved, final) = recover_each now rest recovered in
    if count (stale r.job_id now) rows == 1
    then (elim (get r.job_id recovered) [ some j ↦ j ∷ moved | none ↦ moved ], final)
    else (moved, final)

unfoldable pub recover_stale : (Table → Table) → ℕ → Table → List JobRecord × Table
recover_stale others now rows =
    recover_each now (select (λ r. is_running r.status && expired now r.lease_expires_at) rows)
      (others rows)
