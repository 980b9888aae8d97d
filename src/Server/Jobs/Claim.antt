-- ===== src/Server/Jobs/Claim.antt =====
-- `claim` of ci_failure_orchestrator/server/jobs.py takes the oldest queued job.
use ci_failure_orchestrator.Common.{
  ℕ, ◌≤◌, String, Bool, true, false, not, ◌||◌, List, [], ◌∷◌, some, ◌≡◌, refl, arith, any, all,
  count, select, leb, eq_iff, Bool-cases, inl, inr,
}
use mathlib.Core.List.{Memᴰ}
use mathlib.Core.Path.{subst, sym}
use mathlib.Core.List.Memᴰ
use ci_failure_orchestrator.Server.Jobs.Rows.{
  is_queued, JobRecord, Table, update, claimable, set_claimed, Statement, execute, run, get,
  claim_row,
}
use ci_failure_orchestrator.Server.Jobs.Methods.{
  before, insert_in_order, in_order, candidates, claim_first, claim,
}
use ci_failure_orchestrator.Server.Jobs.Moves.{has_id, IsMove, claim-IsMove}
use ci_failure_orchestrator.Server.Jobs.Once.{run_once}

-- No row is older.
abbrev no_older : JobRecord → Table → Bool
no_older q rows = all (λ r. leb q.created_at r.created_at) rows

before-leb : (a b : JobRecord) → before a b ≡ true → leb a.created_at b.created_at ≡ true
unfolding before
before-leb a b h = ground arith

not_before-leb : (a b : JobRecord) → before a b ≡ false → leb b.created_at a.created_at ≡ true
unfolding before
not_before-leb a b h = ground arith

all_leb_trans :
    (a b : JobRecord) (rows : Table)
    → leb a.created_at b.created_at ≡ true
    → no_older b rows ≡ true
    → no_older a rows ≡ true
all_leb_trans a b [] h k = refl
all_leb_trans a b (r ∷ rows) h k = ground (arith, all_leb_trans a b rows)

-- What the select of the candidates finds first.
record Oldest (rows : Table) (q : JobRecord) (rest : Table) : Type 0 where
  first : in_order rows ≡ q ∷ rest
  member : Memᴰ q rows
  oldest : no_older q rows ≡ true

in_order-Oldest :
    (r : JobRecord) (rows : Table) → (q : JobRecord) × (rest : Table) × Oldest (r ∷ rows) q rest
unfolding in_order insert_in_order
in_order-Oldest r [] =
    (r, [], record { first = refl; member = Memᴰ.head refl; oldest = ground arith })
in_order-Oldest r (s ∷ rows) =
    let (q, rest, found) = in_order-Oldest s rows in
    elim (Bool-cases (before r q)) [
      | inl sooner ↦ (
        r,
        q ∷ rest,
        record {
          first = ground (arith, found.first, sooner);
          member = Memᴰ.head refl;
          oldest =
              ground (arith, all_leb_trans r q (s ∷ rows) (before-leb r q sooner) found.oldest);
        },
      )
      | inr later ↦ (
        q,
        insert_in_order r rest,
        record {
          first = ground (arith, found.first, later);
          member = Memᴰ.tail found.member;
          oldest = ground (arith, not_before-leb r q later, found.oldest);
        },
      )
    ]

-- A row that a move has found, by its identifier.
get-update :
    (job_id : String) {test : JobRecord → Bool} {set : JobRecord → JobRecord} (m : IsMove test set)
    (rows : Table) (q : JobRecord)
    → get job_id rows ≡ some q
    → test q ≡ true
    → get job_id (update test set rows) ≡ some (set q)
unfolding get update
get-update job_id m [] q h t = ground arith
get-update job_id {test} {set} m (r ∷ rows) q h t = elim (Bool-cases (has_id job_id r)) [
  | inl here ↦ ground (arith, m.same_id r)
  | inr other ↦ ground (arith, m.same_id r, get-update job_id m rows q)
]

module _ (p : JobRecord → Bool) where
  select-Memᴰ : {q : JobRecord} (rows : Table) → Memᴰ q (select p rows) → Memᴰ q rows × (p q ≡ true)
  select-Memᴰ [] m = absurd (Memᴰ.not-nil m)
  select-Memᴰ {q} (r ∷ rows) m = elim (Bool-cases (p r)) [
    | inl kept ↦ elim (Memᴰ.cases_cons (subst (Memᴰ q) (rw kept refl) m)) [
      | inl here ↦ (Memᴰ.head here, ground (arith, here, kept))
      | inr there ↦ let (found, holds) = select-Memᴰ rows there in (Memᴰ.tail found, holds)
    ]
    | inr dropped ↦
        let (found, holds) = select-Memᴰ rows (subst (Memᴰ q) (rw dropped refl) m) in
        (Memᴰ.tail found, holds)
  ]

  count_of_Memᴰ : (q : JobRecord) (rows : Table) → Memᴰ q rows → p q ≡ true → 1 ≤ count p rows
  count_of_Memᴰ q [] m h = elim m [ ]
  count_of_Memᴰ q (r ∷ rows) (Memᴰ.head e) h = ground (arith, e)
  count_of_Memᴰ q (r ∷ rows) (Memᴰ.tail m) h = ground (arith, count_of_Memᴰ q rows m h)

-- A row by its identifier, which only it has.
get_of_Memᴰ :
    (q : JobRecord) (rows : Table)
    → count (has_id q.job_id) rows ≤ 1
    → Memᴰ q rows
    → get q.job_id rows ≡ some q
unfolding get
get_of_Memᴰ q [] u m = elim m [ ]
get_of_Memᴰ q (r ∷ rows) u (Memᴰ.head e) = ground (arith, e, eq_iff q.job_id q.job_id)
get_of_Memᴰ q (r ∷ rows) u (Memᴰ.tail m) =
    ground (
      arith,
      count_of_Memᴰ (has_id q.job_id) q rows m,
      eq_iff q.job_id q.job_id,
      get_of_Memᴰ q rows,
    )

nonempty :
    (p : JobRecord → Bool) (rows : Table)
    → any p rows ≡ true
    → (r : JobRecord) × (rest : Table) × (select p rows ≡ r ∷ rest)
nonempty p [] h = ground arith
nonempty p (r ∷ rows) h = elim (Bool-cases (p r)) [
  | inl kept ↦ (r, select p rows, rw kept refl)
  | inr dropped ↦ let (q, rest, eq) = nonempty p rows (ground arith) in (q, rest, rw dropped eq)
]

pub claimable_at_most :
    (job_id : String) (rows : Table) → count (claimable job_id) rows ≤ count (has_id job_id) rows
unfolding claimable
claimable_at_most job_id [] = omega arith
claimable_at_most job_id (r ∷ rows) = ground (arith, claimable_at_most job_id rows)

abbrev pub not_after : JobRecord → JobRecord → Bool
not_after q r = not (is_queued r.status) || leb q.created_at r.created_at

oldest_queued :
    (q : JobRecord) (rows : Table)
    → no_older q (select (λ r. is_queued r.status) rows) ≡ true
    → all (not_after q) rows ≡ true
oldest_queued q [] h = refl
oldest_queued q (r ∷ rows) h = ground (arith, oldest_queued q rows)

-- The claim of a queued row that heads the candidates.
claim_head :
    (worker : String) (lease now : ℕ) (q : JobRecord) (rest : List String) (rows : Table)
    → count (claimable q.job_id) rows ≡ 1
    → claimable q.job_id q ≡ true
    → get q.job_id rows ≡ some q
    → claim_first worker lease now (q.job_id ∷ rest) rows
      ≡ (some (set_claimed worker lease now q), execute (claim_row q.job_id worker lease now) rows)
unfolding claim_first execute
claim_head worker lease now q rest rows one mine found =
    ground (arith, get-update q.job_id (claim-IsMove q.job_id worker lease now) rows q found mine)

claimable_queued : (q : JobRecord) → is_queued q.status ≡ true → claimable q.job_id q ≡ true
unfolding claimable
claimable_queued q h = ground (arith, eq_iff q.job_id q.job_id)

-- A claim that no transaction comes between moves the oldest queued row, and returns it as it is then.
abbrev pub ClaimsOldest : String → ℕ → ℕ → Table → Type 0
ClaimsOldest worker lease now rows =
    (q : JobRecord) × (get q.job_id rows ≡ some q)
    × (is_queued q.status ≡ true)
    × (all (not_after q) rows ≡ true)
    × (claim (λ t. t) worker lease now rows ≡ (
      some (set_claimed worker lease now q),
      execute (claim_row q.job_id worker lease now) rows,
    ))

pub claim_from :
    (worker : String) (lease now : ℕ) (rows : Table)
    → ((job_id : String) → count (has_id job_id) rows ≤ 1)
    → any (λ r. is_queued r.status) rows ≡ true
    → ClaimsOldest worker lease now rows
unfolding claim candidates
claim_from worker lease now rows unique some_queued =
    let (r, rest, eq) = nonempty (λ r. is_queued r.status) rows some_queued in
    let (q, later, found) = in_order-Oldest r rest in
    let (member, queued_q) =
      select-Memᴰ (λ r. is_queued r.status) rows (subst (Memᴰ q) (sym eq) found.member) in
    let here = get_of_Memᴰ q rows (unique q.job_id) member in
    let mine = claimable_queued q queued_q in
    let one : count (claimable q.job_id) rows ≡ 1 = omega (
      arith,
      claimable_at_most q.job_id rows,
      unique q.job_id,
      count_of_Memᴰ (claimable q.job_id) q rows member mine,
    ) in
    (
      q,
      here,
      queued_q,
      oldest_queued q rows (rw eq found.oldest),
      rw (eq, found.first) (claim_head worker lease now q _ rows one mine here),
    )

-- A claim takes the oldest job. After any interleaving of statements on an empty table that leaves some
-- job queued, `claim` with no transaction in between moves a queued job to running for the worker and
-- returns its row as it is then, and no queued job was created before it.
pub claim_oldest :
    (ss : List Statement) (worker : String) (lease now : ℕ)
    → any (λ r. is_queued r.status) (run ss []) ≡ true
    → ClaimsOldest worker lease now (run ss [])
claim_oldest ss worker lease now h =
    claim_from worker lease now (run ss []) (λ job_id. run_once job_id ss) h
