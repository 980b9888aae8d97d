-- ===== src/Ledger.antt =====
-- Idempotent delivery of tasks: ci_failure_orchestrator/task_idempotency.py. The table
-- `task_completions` maps a key, its primary key, to its record. Each method of the ledger is one
-- transaction under BEGIN IMMEDIATE. Times count seconds; a result is stored as JSON, and `stored` is
-- what the JSON of a result reads back as.
pub mod Completed
pub mod Lease
pub mod Slow
use ci_failure_orchestrator.Common.{
  ℕ, ◌+◌, ◌-◌, String, Bool, true, false, not, ◌&&◌, List, [], ◌∷◌, Option, none, some, ltb, str_eq,
  if◌then◌else◌,
}

pub data Status : Type 0 where
  started completed : Status

abbrev pub is_completed : Status → Bool
is_completed completed = true
is_completed started = false

pub record CompletionRecord (R : Type 0) : Type 0 where
  pub idempotency_key : String
  pub status : Status
  pub owner : String
  pub lease_until : ℕ
  pub result : Option R
  pub created_at : ℕ
  pub completed_at : Option ℕ

-- The `DeliveryConflictError` of `complete`, and the `RuntimeError` for a key that is not claimed.
pub data CompleteResult (R : Type 0) : Type 0 where
  done : CompletionRecord R → CompleteResult R
  unclaimed not_owner : CompleteResult R

pub record DeliveryOutcome (R : Type 0) : Type 0 where
  pub executed : Bool
  pub replayed : Bool
  pub result : Option R

-- How `deliver` ends: an outcome, the `ValueError` for an empty key, the exception of the side effect,
-- the `DeliveryConflictError` of the claim, or an exception of `complete`.
pub data Delivery (R : Type 0) : Type 0 where
  delivered : DeliveryOutcome R → Delivery R
  no_key side_effect_failed lease_conflict not_recorded : Delivery R

abbrev pub Ledger : Type 0 → Type 0
Ledger R = String → Option (CompletionRecord R)

module _ {R : Type 0} where
  unfoldable pub put : String → CompletionRecord R → Ledger R → Ledger R
  put key r t = λ k. if str_eq k key then some r else t k

  unfoldable pub get : String → Ledger R → Option (CompletionRecord R)
  get key t = t key

  unfoldable pub get_completed : String → Ledger R → Option (CompletionRecord R)
  unfolding get
  get_completed key t = elim (get key t) [
    | none ↦ none
    | some r ↦ if is_completed r.status then some r else none
  ]

  -- The record that a claim writes.
  abbrev pub claimed_record : String → String → ℕ → ℕ → CompletionRecord R
  claimed_record key owner lease_until created_at = record {
    idempotency_key = key;
    status = started;
    owner = owner;
    lease_until = lease_until;
    result = none;
    created_at = created_at;
    completed_at = none;
  }

  -- `try_claim`.
  unfoldable pub try_claim :
      String → String → ℕ → ℕ → Ledger R → Option (CompletionRecord R) × Ledger R
  unfolding get
  try_claim key owner lease_seconds now t = elim (get key t) [
    | none ↦ let r = claimed_record key owner (now + lease_seconds) now in (some r, put key r t)
    | some r ↦
        let c = claimed_record key owner (now + lease_seconds) r.created_at in
        if is_completed r.status
        then (some r, t)
        else if ltb now r.lease_until && not (str_eq r.owner owner)
        then (none, t)
        else (some c, put key c t)
  ]

  abbrev pub completed_record : R → ℕ → CompletionRecord R → CompletionRecord R
  completed_record result now r = record r {
    status = completed;
    lease_until = 0;
    result = some result;
    completed_at = some now;
  }

  -- `complete`.
  module _ (stored : R → R) where
    unfoldable pub complete : String → R → String → ℕ → Ledger R → CompleteResult R × Ledger R
    unfolding get
    complete key result owner now t = elim (get key t) [
      | none ↦ (unclaimed, t)
      | some r ↦
          let c = completed_record (stored result) now r in
          if is_completed r.status
          then (done r, t)
          else if not (str_eq r.owner owner)
          then (not_owner, t)
          else (done c, put key c t)
    ]

  -- `release`. The source's times are after the first second of its clock.
  unfoldable pub release : String → String → ℕ → Ledger R → Ledger R
  unfolding get
  release key owner now t = elim (get key t) [
    | none ↦ t
    | some r ↦
        let freed : CompletionRecord R = record r { lease_until = now - 1 } in
        if str_eq r.owner owner && not (is_completed r.status) then put key freed t else t
  ]

  abbrev pub replay : CompletionRecord R → Delivery R
  replay r = delivered (record { executed = false; replayed = true; result = r.result })

  -- The end of `deliver` behind the side effect.
  module _ (stored : R → R) where
    unfoldable pub conclude : String → String → ℕ → Option R → Ledger R → Delivery R × Ledger R
    conclude key worker now effect t = elim effect [
      | none ↦ (side_effect_failed, release key worker now t)
      | some result ↦
          let (answer, final) = complete stored key result worker now t in
          (
            elim answer [
              | done r ↦
                  delivered (record { executed = true; replayed = false; result = some result })
              | _ ↦ not_recorded
            ],
            final,
          )
    ]

    -- `deliver` at the time `start`; its side effect takes `seconds` and gives `effect`, or raises if
    -- that is `none`. `others` is what other workers commit between the look-up and the claim, and
    -- `meanwhile` what they commit while the side effect runs.
    unfoldable pub deliver :
        (Ledger R → Ledger R)
        → (Ledger R → Ledger R)
        → String
        → String
        → ℕ
        → ℕ
        → ℕ
        → Option R
        → Ledger R
        → Delivery R × Ledger R
    unfolding conclude
    deliver others meanwhile worker key lease start seconds effect t =
        let found = get_completed key t in
        let (claim, ledger) = try_claim key worker lease start (others t) in
        if str_eq key "" then (no_key, t) else elim found [
          | some r ↦ (replay r, t)
          | none ↦ elim claim [
            | none ↦ (lease_conflict, ledger)
            | some r ↦
                if is_completed r.status
                then (replay r, ledger)
                else conclude key worker (start + seconds) effect (meanwhile ledger)
          ]
        ]
