-- ===== src/Ledger/Slow.antt =====
-- A side effect of ci_failure_orchestrator/task_idempotency.py that outlives its lease.
use ci_failure_orchestrator.Common.{
  ℕ, ◌+◌, ◌≤◌, String, true, false, none, some, str_eq, ◌≡◌, refl, ap, ◌∙◌, arith, eq_iff,
}
use ci_failure_orchestrator.Ledger.{
  is_completed, CompletionRecord, done, delivered, Ledger, put, get, get_completed, claimed_record,
  completed_record, try_claim, complete, conclude, deliver, Delivery,
}

module _ {R : Type 0} (stored : R → R) where
  -- A delivery whose claim starts the key and whose completion is answered by a record.
  deliver_executes :
      (meanwhile : Ledger R → Ledger R) (worker key : String) (lease start seconds : ℕ) (result : R)
      (t : Ledger R) (r d : CompletionRecord R)
      → str_eq key "" ≡ false
      → get_completed key t ≡ none
      → (try_claim key worker lease start t).0 ≡ some r
      → is_completed r.status ≡ false
      → (complete stored key result worker
          (start + seconds)
          (meanwhile (try_claim key worker lease start t).1)).0
        ≡ done d
      → deliver stored (λ l. l) meanwhile worker key lease start seconds (some result) t ≡ (
        delivered (record { executed = true; replayed = false; result = some result }),
        (complete stored key result worker
            (start + seconds)
            (meanwhile (try_claim key worker lease start t).1)).1,
      )
  unfolding deliver conclude
  deliver_executes meanwhile worker key lease start seconds result t r d full new claimed o
        finished =
      ground (arith, full, new, claimed, o, finished)

  -- The record of a slow claim, taken over by another worker after its lease.
  taken_over :
      (key a b : String) (lease start late_lease late : ℕ) (t : Ledger R)
      → t key ≡ none
      → start + lease ≤ late
      → try_claim key b late_lease late (try_claim key a lease start t).1 ≡ (
        some (claimed_record key b (late + late_lease) start),
        put key (claimed_record key b (late + late_lease) start) (try_claim key a lease start t).1,
      )
  unfolding try_claim put get
  taken_over key a b lease start late_lease late t h l = ground (arith, h, l, eq_iff key key)

  first_claim :
      (key a : String) (lease start : ℕ) (t : Ledger R)
      → t key ≡ none
      → (get_completed key t ≡ none)
        × ((try_claim key a lease start t).0 ≡ some (claimed_record key a (start + lease) start))
        × (get_completed key (try_claim key a lease start t).1 ≡ none)
  unfolding try_claim put get get_completed
  first_claim key a lease start t h =
      (ground (arith, h), ground (arith, h), ground (arith, h, eq_iff key key))

  owner_completes :
      (key b : String) (result : R) (until created now : ℕ) (t : Ledger R)
      → let c = claimed_record key b until created in
        complete stored key result b now (put key c t) ≡ (
          done (completed_record (stored result) now c),
          put key (completed_record (stored result) now c) (put key c t),
        )
  unfolding complete put get
  owner_completes key b result until created now t = ground (arith, eq_iff key key, eq_iff b b)

  late_completion :
      (key a : String) (result : R) (now : ℕ) (r : CompletionRecord R) (t : Ledger R)
      → is_completed r.status ≡ true
      → (complete stored key result a now (put key r t)).0 ≡ done r
  unfolding complete put get
  late_completion key a result now r t final = ground (arith, final, eq_iff key key)

  -- The delivery by another worker that takes a slow claim over.
  abbrev pub taking_over : String → String → ℕ → ℕ → ℕ → R → Ledger R → Delivery R × Ledger R
  taking_over key b lease late seconds result =
      deliver stored (λ l. l) (λ l. l) b key lease late seconds (some result)

  taking_over_ends :
      (key a b : String) (lease start late_lease late late_seconds : ℕ) (second : R) (t : Ledger R)
      → str_eq key "" ≡ false
      → t key ≡ none
      → start + lease ≤ late
      → let held = (try_claim key a lease start t).1 in
        let c = claimed_record key b (late + late_lease) start in
        taking_over key b late_lease late late_seconds second held ≡ (
          delivered (record { executed = true; replayed = false; result = some second }),
          put key (completed_record (stored second) (late + late_seconds) c) (put key c held),
        )
  taking_over_ends key a b lease start late_lease late late_seconds second t full absent l =
      let (new, claimed, still_new) = first_claim key a lease start t absent in
      let held = (try_claim key a lease start t).1 in
      let c : CompletionRecord R = claimed_record key b (late + late_lease) start in
      let over = taken_over key a b lease start late_lease late t absent l in
      let mine =
        owner_completes key b second (late + late_lease) start (late + late_seconds) held in
      deliver_executes (λ l. l) b key late_lease late late_seconds second held c
        (completed_record (stored second) (late + late_seconds) c) full still_new
        (ap (λ p. p.0) over) refl (rw over (ap (λ p. p.0) mine))
      ∙ rw (over, mine) refl

  -- A side effect that outlives its lease runs twice. If a worker starts a non-empty key that has
  -- no record, and while its side effect runs another delivery takes the key over after the lease
  -- has ended, then both deliveries report that they executed the side effect, each with its own
  -- result.
  pub slow_delivery_runs_twice :
      (key a b : String) (lease start seconds late_lease late late_seconds : ℕ) (first second : R)
      (t : Ledger R)
      → str_eq key "" ≡ false
      → t key ≡ none
      → start + lease ≤ late
      → ((deliver stored
            (λ l. l)
            (λ l. (taking_over key b late_lease late late_seconds second l).1)
            a
            key
            lease
            start
            seconds
            (some first)
            t).0
          ≡ delivered (record { executed = true; replayed = false; result = some first }))
        × ((taking_over key b late_lease late late_seconds second
              (try_claim key a lease start t).1).0
            ≡ delivered (record { executed = true; replayed = false; result = some second }))
  slow_delivery_runs_twice key a b lease start seconds late_lease late late_seconds first second t
        full absent l =
      let (new, claimed, still_new) = first_claim key a lease start t absent in
      let held = (try_claim key a lease start t).1 in
      let c : CompletionRecord R = claimed_record key b (late + late_lease) start in
      let d : CompletionRecord R = completed_record (stored second) (late + late_seconds) c in
      let inner =
        taking_over_ends key a b lease start late_lease late late_seconds second t full absent l in
      (
        ap (λ p. p.0)
            (deliver_executes (λ l. (taking_over key b late_lease late late_seconds second l).1) a
              key lease start seconds first t (claimed_record key a (start + lease) start) d full
              new claimed refl
              (rw inner (late_completion key a first (start + seconds) d (put key c held) refl))),
        ap (λ p. p.0) inner,
      )
