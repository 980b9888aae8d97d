-- ===== src/Server/Jobs/Replay.antt =====
-- `enqueue` of ci_failure_orchestrator/server/jobs.py: a key is answered by the job it was used for.
use ci_failure_orchestrator.Common.{
  String, Bool, true, false, ◌&&◌, List, [], ◌∷◌, ◌++◌, Option, none, some, ◌≡◌, arith, any, eq_iff,
  Bool-cases, Option-cases, inl, inr, if◌then◌else◌, str_eq,
}
use ci_failure_orchestrator.Server.Jobs.Rows.{
  is_terminal, JobRecord, Table, update, clashes, Submission, new_job, Statement, execute, run,
  insert, claim_row, renew_row, complete_row, recover_row,
}
use ci_failure_orchestrator.Server.Jobs.Methods.{
  created, replayed, conflict, by_key, replay, key_in_use, insert_or_replay, enqueue,
}
use ci_failure_orchestrator.Server.Jobs.Moves.{
  IsMove, claim-IsMove, renew-IsMove, complete-IsMove, recover-IsMove,
}

-- The job that a key is answered by, if it is this one with this request.
abbrev same_request : String → String → Option JobRecord → Bool
same_request job_id digest none = false
same_request job_id digest (some r) = str_eq r.job_id job_id && str_eq r.request_sha256 digest

module _ (key job_id digest : String) where
  abbrev answered : Table → Bool
  answered rows = same_request job_id digest (by_key key rows)

  answered-update :
      {test : JobRecord → Bool} {set : JobRecord → JobRecord} (m : IsMove test set) (rows : Table)
      → answered rows ≡ true
      → answered (update test set rows) ≡ true
  unfolding update by_key
  answered-update m [] h = h
  answered-update {test} {set} m (r ∷ rows) h =
      ground (arith, m.same_id r, m.same_key r, m.same_digest r, answered-update m rows)

  answered-append : (rows more : Table) → answered rows ≡ true → answered (rows ++ more) ≡ true
  unfolding by_key
  answered-append [] more h = cc
  answered-append (r ∷ rows) more h = ground (arith, answered-append rows more)

  execute-answered :
      (s : Statement) (rows : Table) → answered rows ≡ true → answered (execute s rows) ≡ true
  unfolding execute
  execute-answered (insert s) rows h = ground (arith, answered-append rows (new_job s ∷ []) h)
  execute-answered (claim_row id worker lease now) rows h =
      answered-update (claim-IsMove id worker lease now) rows h
  execute-answered (renew_row id worker lease now) rows h =
      answered-update (renew-IsMove id worker lease now) rows h
  execute-answered (complete_row id worker c now) rows h =
      elim (Bool-cases (is_terminal c.status)) [
        | inl final ↦ rw final (answered-update (complete-IsMove id worker c now) rows h)
        | inr not_final ↦ rw not_final h
      ]
  execute-answered (recover_row id owner now) rows h =
      answered-update (recover-IsMove id owner now) rows h

  run-answered :
      (ss : List Statement) (rows : Table) → answered rows ≡ true → answered (run ss rows) ≡ true
  unfolding run
  run-answered [] rows h = h
  run-answered (s ∷ ss) rows h = run-answered ss (execute s rows) (execute-answered s rows h)

-- The row that an insert appends is the first with its key.
appended :
    (key : String) (s : Submission) (rows : Table)
    → s.idempotency_key ≡ some key
    → any (clashes (new_job s)) rows ≡ false
    → by_key key (rows ++ new_job s ∷ []) ≡ some (new_job s)
unfolding by_key clashes new_job
appended key s [] k h = ground (arith, eq_iff key key)
appended key s (r ∷ rows) k h = ground (arith, appended key s rows k)

inserted-answered :
    (key : String) (s : Submission) (rows later : Table) (j : JobRecord)
    → s.idempotency_key ≡ some key
    → insert_or_replay s rows ≡ (created j, later)
    → answered key s.job_id s.request_sha256 later ≡ true
unfolding insert_or_replay execute new_job replay
inserted-answered key s rows later j k h = elim (Bool-cases (any (clashes (new_job s)) rows)) [
  | inl clash ↦ ground (arith, clash)
  | inr apart ↦ ground (
    arith,
    appended key s rows k apart,
    eq_iff s.job_id s.job_id,
    eq_iff s.request_sha256 s.request_sha256,
  )
]

enqueue-answered :
    (others : Table → Table) (key : String) (s : Submission) (rows later : Table) (j : JobRecord)
    → s.idempotency_key ≡ some key
    → enqueue others s rows ≡ (created j, later)
    → answered key s.job_id s.request_sha256 later ≡ true
unfolding enqueue replay
enqueue-answered others key s rows later j k h =
    ground (arith, inserted-answered key s (others rows) later j k)

-- The answer to a key that is in use.
replay_of_answered :
    (others : Table → Table) (key job_id digest : String) (s : Submission) (rows : Table)
    → s.idempotency_key ≡ some key
    → str_eq key "" ≡ false
    → answered key job_id digest rows ≡ true
    → (r : JobRecord) × (r.job_id ≡ job_id)
      × (by_key key rows ≡ some r)
      × (enqueue others s rows
          ≡ ((if str_eq digest s.request_sha256 then replayed r else conflict), rows))
unfolding enqueue replay key_in_use
replay_of_answered others key job_id digest s rows k full h =
    elim (Option-cases (by_key key rows)) [
      | inl gone ↦ ground (arith, h, gone)
      | inr (r, found) ↦
          let both : same_request job_id digest (some r) ≡ true = ground (arith, h, found) in
          let same_job : r.job_id ≡ job_id = ground (arith, eq_iff r.job_id job_id, both) in
          let same_digest : r.request_sha256 ≡ digest =
            ground (arith, eq_iff r.request_sha256 digest, both) in
          (r, same_job, found, ground (arith, found, same_digest))
    ]

-- A key answers for good. If a submission with a non-empty key creates a job, then after any further
-- interleaving of statements another submission with the key, whatever is committed while it is
-- handled, changes nothing; it is answered by that job if its body has the same digest, and by a
-- conflict otherwise.
pub enqueue_replays :
    (others : Table → Table) (key : String) (first : Submission) (rows later : Table)
    (j : JobRecord)
    → first.idempotency_key ≡ some key
    → str_eq key "" ≡ false
    → enqueue others first rows ≡ (created j, later)
    → (after : List Statement) (others_later : Table → Table) (second : Submission)
    → second.idempotency_key ≡ some key
    → (r : JobRecord) × (r.job_id ≡ first.job_id)
      × (by_key key (run after later) ≡ some r)
      × (enqueue others_later second (run after later) ≡ (
        (if str_eq first.request_sha256 second.request_sha256 then replayed r else conflict),
        run after later,
      ))
enqueue_replays others key first rows later j k full h after others_later second k2 =
    replay_of_answered others_later key first.job_id first.request_sha256 second (run after later)
      k2 full
      (run-answered key first.job_id first.request_sha256 after later
        (enqueue-answered others key first rows later j k h))
