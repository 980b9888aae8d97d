-- ===== src/Ledger/Completed.antt =====
-- A completed key of ci_failure_orchestrator/task_idempotency.py stays completed.
use ci_failure_orchestrator.Common.{
  ℕ, ◌+◌, String, Bool, true, false, List, [], ◌∷◌, Option, none, some, str_eq, ◌≡◌, ◌⊎◌, refl,
  arith, eq_iff, Option-cases, inl, inr,
}
use ci_failure_orchestrator.Ledger.{
  is_completed, CompletionRecord, CompleteResult, done, unclaimed, not_owner, DeliveryOutcome,
  delivered, Ledger, put, get, get_completed, try_claim, complete, release, replay, conclude,
  deliver,
}

-- What workers do to the ledger; each is one transaction.
pub data Statement (R : Type 0) : Type 0 where
  claim : String → String → ℕ → ℕ → Statement R
  finish : String → R → String → ℕ → Statement R
  abandon : String → String → ℕ → Statement R

answer_cases :
    {R : Type 0} (a : CompleteResult R)
    → ((d : CompletionRecord R) × (a ≡ done d)) ⊎ ((a ≡ unclaimed) ⊎ (a ≡ not_owner))
answer_cases (done d) = inl (d, refl)
answer_cases unclaimed = inr (inl refl)
answer_cases not_owner = inr (inr refl)

module _ {R : Type 0} (stored : R → R) where
  unfoldable pub execute : Statement R → Ledger R → Ledger R
  execute (claim key owner lease now) t = (try_claim key owner lease now t).1
  execute (finish key result owner now) t = (complete stored key result owner now t).1
  execute (abandon key owner now) t = release key owner now t

  unfoldable pub run : List (Statement R) → Ledger R → Ledger R
  run [] t = t
  run (s ∷ ss) t = run ss (execute s t)

  module _ (key : String) (r : CompletionRecord R) (final : is_completed r.status ≡ true) where
    try_claim-completed :
        (k owner : String) (lease now : ℕ) (t : Ledger R)
        → t key ≡ some r
        → (try_claim k owner lease now t).1 key ≡ some r
    unfolding try_claim put get
    try_claim-completed k owner lease now t h = ground (arith, eq_iff key k)

    complete-completed :
        (k : String) (result : R) (owner : String) (now : ℕ) (t : Ledger R)
        → t key ≡ some r
        → (complete stored k result owner now t).1 key ≡ some r
    unfolding complete put get
    complete-completed k result owner now t h = ground (arith, eq_iff key k)

    release-completed :
        (k owner : String) (now : ℕ) (t : Ledger R)
        → t key ≡ some r
        → release k owner now t key ≡ some r
    unfolding release put get
    release-completed k owner now t h = ground (arith, eq_iff key k)

    execute-completed : (s : Statement R) (t : Ledger R) → t key ≡ some r → execute s t key ≡ some r
    unfolding execute
    execute-completed (claim k owner lease now) t h = try_claim-completed k owner lease now t h
    execute-completed (finish k result owner now) t h = complete-completed k result owner now t h
    execute-completed (abandon k owner now) t h = release-completed k owner now t h

    pub run-completed :
        (ss : List (Statement R)) (t : Ledger R) → t key ≡ some r → run ss t key ≡ some r
    unfolding run
    run-completed [] t h = h
    run-completed (s ∷ ss) t h = run-completed ss (execute s t) (execute-completed s t h)

  abbrev settled_at : String → Ledger R → Bool
  settled_at key t = elim (t key) [ none ↦ false | some r ↦ is_completed r.status ]

  settled_record :
      (key : String) (t : Ledger R)
      → settled_at key t ≡ true
      → (r : CompletionRecord R) × (t key ≡ some r) × (is_completed r.status ≡ true)
  settled_record key t h = elim (Option-cases (t key)) [
    | inl gone ↦ ground (arith, h, gone)
    | inr (r, here) ↦ (r, here, ground (arith, h, here))
  ]

  complete_done :
      (key : String) (result : R) (owner : String) (now : ℕ) (t : Ledger R) (d : CompletionRecord R)
      → (complete stored key result owner now t).0 ≡ done d
      → ((complete stored key result owner now t).1 key ≡ some d) × (is_completed d.status ≡ true)
  unfolding complete put get
  complete_done key result owner now t d h = ground (arith, eq_iff key key)

  pub try_claim-some :
      (key owner : String) (lease now : ℕ) (t : Ledger R) (d : CompletionRecord R)
      → (try_claim key owner lease now t).0 ≡ some d
      → (try_claim key owner lease now t).1 key ≡ some d
  unfolding try_claim put get
  try_claim-some key owner lease now t d h = ground (arith, eq_iff key key)

  complete_cases :
      (key : String) (result : R) (owner : String) (now : ℕ) (t : Ledger R)
      → ((d : CompletionRecord R) × ((complete stored key result owner now t).0 ≡ done d))
        ⊎ (((complete stored key result owner now t).0 ≡ unclaimed)
            ⊎ ((complete stored key result owner now t).0 ≡ not_owner))
  complete_cases key result owner now t = answer_cases (complete stored key result owner now t).0

  conclude-settled :
      (key worker : String) (now : ℕ) (effect : Option R) (t later : Ledger R)
      (o : DeliveryOutcome R)
      → conclude stored key worker now effect t ≡ (delivered o, later)
      → settled_at key later ≡ true
  unfolding conclude
  conclude-settled key worker now none t later o h = ground (arith, h)
  conclude-settled key worker now (some result) t later o h =
      elim (complete_cases key result worker now t) [
        | inl (d, finished) ↦ ground (arith, h, finished, complete_done key result worker now t d)
        | inr (inl failed) ↦ ground (arith, h, failed)
        | inr (inr failed) ↦ ground (arith, h, failed)
      ]

  -- A key that a delivery leaves completed, and what every later delivery makes of it.
  deliver-settled :
      (others meanwhile : Ledger R → Ledger R) (worker key : String) (lease start seconds : ℕ)
      (effect : Option R) (t later : Ledger R) (o : DeliveryOutcome R)
      → deliver stored others meanwhile worker key lease start seconds effect t
        ≡ (delivered o, later)
      → settled_at key later ≡ true
  unfolding deliver get_completed get
  deliver-settled others meanwhile worker key lease start seconds effect t later o h =
      elim (Option-cases (try_claim key worker lease start (others t)).0) [
        | inl refused ↦ ground (arith, h, refused)
        | inr (d, claimed) ↦ ground (
          arith,
          h,
          claimed,
          try_claim-some key worker lease start (others t) d claimed,
          conclude-settled key worker (start + seconds) effect
              (meanwhile (try_claim key worker lease start (others t)).1) later o,
        )
      ]

  replay_of_completed :
      (others meanwhile : Ledger R → Ledger R) (worker key : String) (lease start seconds : ℕ)
      (effect : Option R) (t : Ledger R) (r : CompletionRecord R)
      → str_eq key "" ≡ false
      → t key ≡ some r
      → is_completed r.status ≡ true
      → deliver stored others meanwhile worker key lease start seconds effect t ≡ (replay r, t)
  unfolding deliver get_completed get
  replay_of_completed others meanwhile worker key lease start seconds effect t r full h c =
      ground (arith, full, h, c)

  -- A delivered key runs no side effect again. When a delivery of a non-empty key has returned an
  -- outcome, the key has a record, and after any further claims, completions and releases by any
  -- workers every delivery of the key runs nothing, changes nothing and returns the result of that
  -- record.
  pub deliver_once :
      (others meanwhile : Ledger R → Ledger R) (worker key : String) (lease start seconds : ℕ)
      (effect : Option R) (t later : Ledger R) (o : DeliveryOutcome R)
      → str_eq key "" ≡ false
      → deliver stored others meanwhile worker key lease start seconds effect t
        ≡ (delivered o, later)
      → (ss : List (Statement R)) (late_others late_meanwhile : Ledger R → Ledger R)
        (late_worker : String) (late_lease late_start late_seconds : ℕ) (late_effect : Option R)
      → (r : CompletionRecord R) × (later key ≡ some r)
        × (deliver stored late_others late_meanwhile late_worker key late_lease late_start
              late_seconds late_effect
              (run ss later)
            ≡ (
              delivered (record { executed = false; replayed = true; result = r.result }),
              run ss later,
            ))
  deliver_once others meanwhile worker key lease start seconds effect t later o full h ss
        late_others late_meanwhile late_worker late_lease late_start late_seconds late_effect =
      let (r, here, final) =
        settled_record key later
          (deliver-settled others meanwhile worker key lease start seconds effect t later o h) in
      (
        r,
        here,
        replay_of_completed late_others late_meanwhile late_worker key late_lease late_start
            late_seconds late_effect (run ss later) r full (run-completed key r final ss later here)
            final,
      )
