-- ===== src/Server/Jobs/Drain.antt =====
-- Claims drain the queue (`JobQueue.claim` of ci_failure_orchestrator/server/jobs.py).
use ci_failure_orchestrator.Common.{
  ℕ, ◌+◌, ◌≤◌, zero, suc, String, Bool, true, false, ◌&&◌, List, [], ◌∷◌, some, none, Option, ◌≡◌,
  refl, ap₂, arith, any, count, length, all, inl, inr, Bool-cases, leb, str_eq, eq_iff,
}
use ci_failure_orchestrator.Server.Jobs.Rows.{
  is_queued, is_running, JobRecord, Table, update, claimable, set_claimed, Statement, execute, run,
  claim_row, get,
}
use ci_failure_orchestrator.Server.Jobs.Methods.{claim}
use ci_failure_orchestrator.Server.Jobs.Moves.{has_id}
use ci_failure_orchestrator.Server.Jobs.Once.{run_once, execute_once}
use ci_failure_orchestrator.Server.Jobs.Claim.{claim_from, not_after, claimable_at_most}

-- The number of jobs that wait.
abbrev pub waiting : Table → ℕ
waiting rows = count (λ r. is_queued r.status) rows

-- What a claim returns, in front of what later claims return.
abbrev pub and_job : Option JobRecord → List JobRecord → List JobRecord
and_job none jobs = jobs
and_job (some j) jobs = j ∷ jobs

-- As many calls of `claim` as a number says, by one worker and with no transaction in between: the jobs that
-- they return and the table behind them.
unfoldable pub claims : ℕ → String → ℕ → ℕ → Table → List JobRecord × Table
claims zero worker lease now rows = ([], rows)
claims (suc n) worker lease now rows =
    let (job, claimed) = claim (λ t. t) worker lease now rows in
    let (jobs, final) = claims n worker lease now claimed in (and_job job jobs, final)

-- Each was created no later than those behind it.
abbrev pub oldest_first : List JobRecord → Bool
oldest_first [] = true
oldest_first (j ∷ jobs) = all (λ r. leb j.created_at r.created_at) jobs && oldest_first jobs

abbrev pub runs_for : String → JobRecord → Bool
runs_for worker j =
    is_running j.status && elim j.lease_owner [ some w ↦ str_eq w worker | none ↦ false ]

claim_row-waiting :
    (job_id worker : String) (lease now : ℕ) (rows : Table)
    → waiting (execute (claim_row job_id worker lease now) rows) + count (claimable job_id) rows
      ≡ waiting rows
unfolding execute update claimable set_claimed
claim_row-waiting job_id worker lease now [] = refl
claim_row-waiting job_id worker lease now (r ∷ rows) = elim (Bool-cases (claimable job_id r)) [
  | inl found ↦ rw found (ground (arith, found, claim_row-waiting job_id worker lease now rows))
  | inr other ↦ rw other (ground (arith, claim_row-waiting job_id worker lease now rows))
]

some_waiting :
    (n : ℕ) (rows : Table) → waiting rows ≡ suc n → any (λ r. is_queued r.status) rows ≡ true
some_waiting n [] h = absurd (omega arith)
some_waiting n (r ∷ rows) h = elim (Bool-cases (is_queued r.status)) [
  | inl here ↦ ground arith
  | inr later ↦ ground (arith, some_waiting n rows)
]

claim_row-not_after :
    (q : JobRecord) (job_id worker : String) (lease now : ℕ) (rows : Table)
    → all (not_after q) rows ≡ true
    → all (not_after q) (execute (claim_row job_id worker lease now) rows) ≡ true
unfolding execute update set_claimed
claim_row-not_after q job_id worker lease now [] h = refl
claim_row-not_after q job_id worker lease now (r ∷ rows) h =
    elim (Bool-cases (claimable job_id r)) [
      | inl found ↦ rw found (ground (arith, claim_row-not_after q job_id worker lease now rows))
      | inr other ↦ rw other (ground (arith, claim_row-not_after q job_id worker lease now rows))
    ]

all-get :
    (p : JobRecord → Bool) (job_id : String) (q : JobRecord) (rows : Table)
    → all p rows ≡ true
    → get job_id rows ≡ some q
    → p q ≡ true
unfolding get
all-get p job_id q [] h g = ground arith
all-get p job_id q (r ∷ rows) h g = ground (arith, all-get p job_id q rows)

get-claimable :
    (job_id : String) (q : JobRecord) (rows : Table)
    → get job_id rows ≡ some q
    → is_queued q.status ≡ true
    → 1 ≤ count (claimable job_id) rows
unfolding get claimable
get-claimable job_id q [] g h = absurd (ground arith)
get-claimable job_id q (r ∷ rows) g h = ground (arith, get-claimable job_id q rows)

-- What as many claims as jobs wait have done.
pub record Drained (worker : String) (n : ℕ) (jobs : List JobRecord) (final : Table) : Type 0 where
  pub as_many : length jobs ≡ n
  pub none_left : waiting final ≡ 0
  pub fair : oldest_first jobs ≡ true
  pub running : all (runs_for worker) jobs ≡ true

module _ (worker : String) (lease now : ℕ) where
  claimed_running : (q : JobRecord) → runs_for worker (set_claimed worker lease now q) ≡ true
  unfolding set_claimed
  claimed_running q = ground (arith, eq_iff worker worker)

  claimed_time : (q : JobRecord) → (set_claimed worker lease now q).created_at ≡ q.created_at
  unfolding set_claimed
  claimed_time q = refl

  -- Behind the first claim, which took a job that no waiting one is older than.
  first-Drained :
      (n : ℕ) (q : JobRecord) (jobs : List JobRecord) (final : Table)
      → all (λ r. leb q.created_at r.created_at) jobs ≡ true
      → Drained worker n jobs final
      → Drained worker (suc n) (set_claimed worker lease now q ∷ jobs) final
  first-Drained n q jobs final late d = record {
    as_many = omega (arith, d.as_many);
    none_left = d.none_left;
    fair = rw (claimed_time q) (ap₂ ◌&&◌ late d.fair);
    running = ground (arith, claimed_running q, d.running);
  }

  claims-Drained :
      (n : ℕ) (rows : Table)
      → ((job_id : String) → count (has_id job_id) rows ≤ 1)
      → waiting rows ≡ n
      → Drained worker n (claims n worker lease now rows).0 (claims n worker lease now rows).1
        × ((q : JobRecord)
            → all (not_after q) rows ≡ true
            → all (λ r. leb q.created_at r.created_at) (claims n worker lease now rows).0 ≡ true)
  unfolding claims
  claims-Drained zero rows unique h =
      (record { as_many = refl; none_left = h; fair = refl; running = refl }, λ q late. refl)
  claims-Drained (suc n) rows unique h =
      let (q, found, queued_q, oldest, made) =
        claim_from worker lease now rows unique (some_waiting n rows h) in
      let claimed = execute (claim_row q.job_id worker lease now) rows in
      let fewer : waiting claimed ≡ n = omega (
        arith,
        h,
        claim_row-waiting q.job_id worker lease now rows,
        claimable_at_most q.job_id rows,
        unique q.job_id,
        get-claimable q.job_id q rows found queued_q,
      ) in
      let (drained, later) =
        claims-Drained n claimed
          (λ job_id. execute_once job_id (claim_row q.job_id worker lease now) rows (unique job_id))
          fewer in
      rw made (
        first-Drained n q _ _
            (later q (claim_row-not_after q q.job_id worker lease now rows oldest)) drained,
        λ p late. ground (
          arith,
          claimed_time q,
          all-get (not_after p) q.job_id q rows late found,
          queued_q,
          later p (claim_row-not_after p q.job_id worker lease now rows late),
        ),
      )

-- Claims drain the queue, oldest first. After any interleaving of statements on an empty table that leaves
-- some number of jobs queued, that many calls of `claim` with no transaction in between each return a job
-- that runs for the worker, no job was created before one returned earlier, and none is queued afterwards.
pub claims_drain :
    (ss : List Statement) (worker : String) (lease now : ℕ)
    → let (jobs, final) = claims (waiting (run ss [])) worker lease now (run ss []) in
      Drained worker (waiting (run ss [])) jobs final
claims_drain ss worker lease now =
    (claims-Drained worker lease now (waiting (run ss [])) (run ss [])
      (λ job_id. run_once job_id ss) refl).0
