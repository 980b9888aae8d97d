-- ===== src/Foundation/AuditLog/Refines.antt =====
-- `FileAuditStore` implements the abstract audit log: appends, failed writes that leave nothing, and
-- restarts of the process.
use ci_failure_orchestrator.Common.{
  Bool, true, false, List, [], ◌∷◌, ◌++◌, map, str_eq, ◌≡◌, refl, ap₂, arith, inl, inr, if_keeps,
}
use ci_failure_orchestrator.Foundation.Json.{Builtins}
use ci_failure_orchestrator.Foundation.Exec.{persistence_error, Result, ok, raised}
use ci_failure_orchestrator.Foundation.Durable.{AuditEvent, audit_schema}
use ci_failure_orchestrator.Foundation.Durable.Roundtrip.{filled_event}
use ci_failure_orchestrator.Foundation.AuditLog.{
  FileAuditStore, empty_store, restart, Write, kept, lost, read_events, append,
}
use ci_failure_orchestrator.Foundation.AuditLog.Numbering.{
  admit, numbered, distinct, admit-numbered, admit-distinct,
}
use ci_failure_orchestrator.Foundation.AuditLog.Holding.{
  ids, holding, Represents, read_raw-holding, appended, append_admits, write-kept, write-lost,
}

-- What happens to a log: an event is appended, with the write that the file system makes of it, or
-- the process is started again.
pub data Step : Type 0 where
  appends : AuditEvent → Bool → Step
  restarts : Step

abbrev pub write_of : Bool → Write
write_of true = kept
write_of false = lost

-- One step of the abstract log: the events grow when the event is admitted and written.
abbrev pub spec_append :
    Result {0} Unit → Bool → AuditEvent → List AuditEvent → Result {0} Unit × List AuditEvent
spec_append (raised x) b e events = (raised x, events)
spec_append (ok _) true e events = (ok tt, events ++ e ∷ [])
spec_append (ok _) false e events = (raised persistence_error, events)

abbrev pub spec : Step → List AuditEvent → Result {0} Unit × List AuditEvent
spec (appends e b) events = spec_append (admit e events) b e events
spec restarts events = (ok tt, events)

unfoldable pub spec_run : List Step → List AuditEvent → List (Result {0} Unit) × List AuditEvent
spec_run [] events = ([], events)
spec_run (step ∷ steps) events =
    let (answer, next) = spec step events in
    let (answers, final) = spec_run steps next in (answer ∷ answers, final)

module _ (py : Builtins) where
  unfoldable pub store_step : Step → FileAuditStore → Result {0} Unit × FileAuditStore
  unfolding append
  store_step (appends e b) s = append py e (write_of b) s
  store_step restarts s = (ok tt, restart s)

  unfoldable pub store_run : List Step → FileAuditStore → List (Result {0} Unit) × FileAuditStore
  unfolding store_step
  store_run [] s = ([], s)
  store_run (step ∷ steps) s =
      let (answer, next) = store_step step s in
      let (answers, final) = store_run steps next in (answer ∷ answers, final)

  -- One answer of the store and of the abstract log, and again a store for the events.
  abbrev Agree : Result {0} Unit × FileAuditStore → Result {0} Unit × List AuditEvent → Type 0
  Agree (answer, s) (answer', events) = (answer ≡ answer') × Represents s events

  pub appended-Agree :
      (e : AuditEvent) (b : Bool) (s : FileAuditStore) (events : List AuditEvent)
      (a : Result {0} Unit)
      → Represents s events
      → Agree (appended py e (write_of b) s events a) (spec_append a b e events)
  appended-Agree e b s events (raised x) r = (
    refl,
    if_keeps (λ s'. Represents s' events) (str_eq e.schema_version audit_schema)
        (holding events (ids events)) s (λ _. inr refl) (λ _. r),
  )
  appended-Agree e true s events (ok _) r = rw (write-kept py e events) (refl, inr refl)
  appended-Agree e false s events (ok _) r = rw (write-lost py) (refl, inr refl)

  step-Agree :
      (step : Step) (s : FileAuditStore) (events : List AuditEvent)
      → Represents s events
      → numbered 1 events ≡ true
      → Agree (store_step step s) (spec step events)
  unfolding store_step
  step-Agree restarts s events (inl e) h = rw e (refl, inl refl)
  step-Agree restarts s events (inr e) h = rw e (refl, inl refl)
  step-Agree (appends e b) s events r h =
      rw (append_admits py e (write_of b) s events r h)
        (appended-Agree e b s events (admit e events) r)

spec-numbered :
    (step : Step) (events : List AuditEvent)
    → numbered 1 events ≡ true
    → numbered 1 (spec step events).1 ≡ true
spec-numbered restarts events h = h
spec-numbered (appends e b) events h = ground (arith, admit-numbered e events)

spec-distinct :
    (step : Step) (events : List AuditEvent)
    → distinct events ≡ true
    → distinct (spec step events).1 ≡ true
spec-distinct restarts events h = h
spec-distinct (appends e b) events h = ground (arith, admit-distinct e events)

-- The numbering and the identifiers, behind every step of the abstract log.
abbrev pub IsLog : List AuditEvent → Type 0
IsLog events = (numbered 1 events ≡ true) × (distinct events ≡ true)

module _ (py : Builtins) where
  run-Agree :
      (steps : List Step) (s : FileAuditStore) (events : List AuditEvent)
      → Represents s events
      → IsLog events
      → ((store_run py steps s).0 ≡ (spec_run steps events).0)
        × Represents (store_run py steps s).1 (spec_run steps events).1
        × IsLog (spec_run steps events).1
  unfolding store_run spec_run
  run-Agree [] s events r l = (refl, r, l)
  run-Agree (step ∷ steps) s events r l =
      let (answer, next) = step-Agree py step s events r l.0 in
      let (answers, final, log) =
        run-Agree steps (store_step py step s).1 (spec step events).1 next
          (spec-numbered step events l.0, spec-distinct step events l.1) in
      (ap₂ (λ a rest. a ∷ rest) answer answers, final, log)

  read_events-Represents :
      (s : FileAuditStore) (events : List AuditEvent)
      → Represents s events
      → read_events py s ≡ ok (map filled_event events)
  unfolding read_events
  read_events-Represents s events (inl e) = rw e (ground (arith, read_raw-holding py events []))
  read_events-Represents s events (inr e) =
      rw e (ground (arith, read_raw-holding py events (ids events)))

  -- Whatever is appended to the log of a new run, with writes that keep the whole line or none of it
  -- and with restarts between them, the store answers like a list that takes an event exactly if
  -- its schema is the audit schema, its identifier is new and its sequence number is the next one;
  -- all the events of that list are read back, with the defaults for empty texts, and nothing else;
  -- they are numbered from 1 and have different identifiers.
  pub store_refines :
      (steps : List Step)
      → ((store_run py steps empty_store).0 ≡ (spec_run steps []).0)
        × (read_events py (store_run py steps empty_store).1
            ≡ ok (map filled_event (spec_run steps []).1))
        × IsLog (spec_run steps []).1
  store_refines steps =
      let (answers, final, log) = run-Agree steps empty_store [] (inl refl) (refl, refl) in
      (
        answers,
        read_events-Represents (store_run py steps empty_store).1 (spec_run steps []).1 final,
        log,
      )
