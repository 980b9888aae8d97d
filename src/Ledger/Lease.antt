-- ===== src/Ledger/Lease.antt =====
-- The lease of ci_failure_orchestrator/task_idempotency.py: whom it excludes, and for how long.
use ci_failure_orchestrator.Common.{
  ℕ, ◌+◌, String, Bool, true, false, not, ◌&&◌, ◌||◌, List, [], ◌∷◌, all, Option, none, some, ltb,
  str_eq, ◌≡◌, arith, eq_iff, Option-cases, inl, inr, ap, subst,
}
use ci_failure_orchestrator.Ledger.{
  is_completed, CompletionRecord, done, Ledger, put, get, completed_record, try_claim, complete,
  release,
}
use ci_failure_orchestrator.Ledger.Completed.{
  Statement, claim, finish, abandon, execute, run, try_claim-some,
}

-- A statement that does not come from the owner of the key, and claims it only before `until`.
abbrev pub foreign : {R : Type 0} → String → String → ℕ → Statement R → Bool
foreign key owner until (claim k o lease now) =
    not (str_eq k key) || (not (str_eq owner o) && ltb now until)
foreign key owner until (finish k result o now) = not (str_eq k key) || not (str_eq owner o)
foreign key owner until (abandon k o now) = not (str_eq k key) || not (str_eq owner o)

module _ {R : Type 0} (stored : R → R) (key : String) (r : CompletionRecord R)
    (open_record : is_completed r.status ≡ false) where
  try_claim-foreign :
      (k o : String) (lease now : ℕ) (t : Ledger R)
      → foreign {R = R} key r.owner r.lease_until (claim k o lease now) ≡ true
      → t key ≡ some r
      → (try_claim k o lease now t).1 key ≡ some r
  unfolding try_claim put get
  try_claim-foreign k o lease now t f h = ground (arith, eq_iff key k, eq_iff k key)

  complete-foreign :
      (k : String) (result : R) (o : String) (now : ℕ) (t : Ledger R)
      → foreign {R = R} key r.owner r.lease_until (finish k result o now) ≡ true
      → t key ≡ some r
      → (complete stored k result o now t).1 key ≡ some r
  unfolding complete put get
  complete-foreign k result o now t f h = ground (arith, eq_iff key k, eq_iff k key)

  release-foreign :
      (k o : String) (now : ℕ) (t : Ledger R)
      → foreign {R = R} key r.owner r.lease_until (abandon k o now) ≡ true
      → t key ≡ some r
      → release k o now t key ≡ some r
  unfolding release put get
  release-foreign k o now t f h = ground (arith, eq_iff key k, eq_iff k key)

  execute-foreign :
      (s : Statement R) (t : Ledger R)
      → foreign key r.owner r.lease_until s ≡ true
      → t key ≡ some r
      → execute stored s t key ≡ some r
  unfolding execute
  execute-foreign (claim k o lease now) t f h = try_claim-foreign k o lease now t f h
  execute-foreign (finish k result o now) t f h = complete-foreign k result o now t f h
  execute-foreign (abandon k o now) t f h = release-foreign k o now t f h

  run-foreign :
      (ss : List (Statement R)) (t : Ledger R)
      → all (foreign key r.owner r.lease_until) ss ≡ true
      → t key ≡ some r
      → run stored ss t key ≡ some r
  unfolding run
  run-foreign [] t f h = h
  run-foreign (s ∷ ss) t f h =
      run-foreign ss (execute stored s t) (ground (arith, f))
        (execute-foreign s t (ground (arith, f)) h)

abbrev pub starts : {R : Type 0} → Option (CompletionRecord R) → Bool
starts none = false
starts (some r) = not (is_completed r.status)

abbrev pub is_none : {R : Type 0} → Option (CompletionRecord R) → Bool
is_none none = true
is_none (some r) = false

-- The record that a claim starts.
try_claim-started :
    {R : Type 0} (key owner : String) (lease now : ℕ) (t : Ledger R) (r : CompletionRecord R)
    → (try_claim key owner lease now t).0 ≡ some r
    → is_completed r.status ≡ false
    → (r.owner ≡ owner) × (r.lease_until ≡ now + lease)
unfolding try_claim
try_claim-started key owner lease now t r h o = elim (Option-cases (t key)) [
  | inl absent ↦ (ground (arith, h, absent), ground (arith, h, absent))
  | inr (q, here) ↦ (ground (arith, h, here, o), ground (arith, h, here, o))
]

module _ {R : Type 0} (stored : R → R) where
  refuses :
      (key owner : String) (lease now : ℕ) (t : Ledger R) (r : CompletionRecord R)
      → t key ≡ some r
      → is_completed r.status ≡ false
      → ltb now r.lease_until ≡ true
      → str_eq r.owner owner ≡ false
      → try_claim key owner lease now t ≡ (none, t)
  unfolding try_claim get
  refuses key owner lease now t r h o l other = ground (arith, h, o, l, other)

  completes :
      (key : String) (result : R) (owner : String) (now : ℕ) (t : Ledger R) (r : CompletionRecord R)
      → t key ≡ some r
      → is_completed r.status ≡ false
      → r.owner ≡ owner
      → (complete stored key result owner now t).0 ≡ done (completed_record (stored result) now r)
  unfolding complete get
  completes key result owner now t r h o own = ground (arith, h, o, own, eq_iff r.owner owner)

  -- A lease keeps the other workers out. After a claim that starts the key, and after any
  -- statements on other keys, any claims of the key by other workers before the lease ends, and any
  -- completions and releases of it by other workers, a claim by another worker before the lease
  -- ends is refused, and a completion by the owner succeeds at any time.
  pub lease_excludes :
      (key owner : String) (lease now : ℕ) (t later : Ledger R) (r : CompletionRecord R)
      → try_claim key owner lease now t ≡ (some r, later)
      → is_completed r.status ≡ false
      → (ss : List (Statement R)) → all (foreign key owner (now + lease)) ss ≡ true
      → (other : String) (late_lease late finished : ℕ) (result : R) → str_eq owner other ≡ false
      → ltb late (now + lease) ≡ true
      → (try_claim key other late_lease late (run stored ss later) ≡ (none, run stored ss later))
        × ((complete stored key result owner finished (run stored ss later)).0
            ≡ done (completed_record (stored result) finished r))
  lease_excludes key owner lease now t later r h o ss f other late_lease late finished result differ
        early =
      let granted : (try_claim key owner lease now t).0 ≡ some r = ap (λ p. p.0) h in
      let (own, until) = try_claim-started key owner lease now t r granted o in
      let here : later key ≡ some r =
        subst (λ l. l key ≡ some r) (ap (λ p. p.1) h)
          (try_claim-some stored key owner lease now t r granted) in
      let kept : run stored ss later key ≡ some r =
        run-foreign stored key r o ss later (rw (own, until) f) here in
      (
        refuses key other late_lease late (run stored ss later) r kept o (rw until early)
            (rw own differ),
        completes key result owner finished (run stored ss later) r kept o own,
      )

-- A claim starts the key exactly when there is no record, or the record is not completed and its lease
-- has ended or is the same worker's; a completed key is answered by its record, and all else is refused.
pub try_claim_exact :
    {R : Type 0} (key owner : String) (lease now : ℕ) (t : Ledger R)
    → (starts (try_claim key owner lease now t).0 ≡ (elim (t key) [
      | none ↦ true
      | some r ↦
          not (is_completed r.status) && (not (ltb now r.lease_until) || str_eq r.owner owner)
    ]))
      × (is_none (try_claim key owner lease now t).0 ≡ (elim (t key) [
        | none ↦ false
        | some r ↦
            not (is_completed r.status) && (ltb now r.lease_until && not (str_eq r.owner owner))
      ]))
unfolding try_claim get
try_claim_exact key owner lease now t = elim (Option-cases (t key)) [
  | inl absent ↦ (ground (arith, absent), ground (arith, absent))
  | inr (r, here) ↦ (ground (arith, here), ground (arith, here))
]
