-- ===== src/Foundation/AuditLog/Holding.antt =====
-- The store that holds given events, and what its methods answer (`FileAuditStore` of
-- foundation/durable.py).
use ci_failure_orchestrator.Common.{
  String, true, false, List, [], ◌∷◌, ◌++◌, map, map-append, none, any, length, str_eq,
  if◌then◌else◌, ◌≡◌, refl, ap, sym, subst, arith, ◌⊎◌, inl, inr,
}
use ci_failure_orchestrator.Foundation.Json.{Builtins}
use ci_failure_orchestrator.Foundation.Exec.{persistence_error, Result, ok, raised}
use ci_failure_orchestrator.Foundation.Durable.{AuditEvent, audit_schema, to_dict}
use ci_failure_orchestrator.Foundation.Durable.Roundtrip.{filled_event, from_dict-to_dict}
use ci_failure_orchestrator.Foundation.AuditLog.{
  FileAuditStore, written, Write, kept, lost, read_lines, read_raw, last_sequence, latest_sequence,
  load_seen, write_event, append, join,
}
use ci_failure_orchestrator.Foundation.AuditLog.Numbering.{
  admit, numbered, has_id, last_sequence-numbered,
}

abbrev pub ids : List AuditEvent → List String
ids = map λ e. e.event_id

-- The store that holds the events and has seen the identifiers.
abbrev pub holding : List AuditEvent → List String → FileAuditStore
holding events seen = record {
  lines = map (λ e. written (to_dict e)) events;
  unterminated = none;
  seen_ids = seen;
}

-- The store holds the events, and the identifiers are not loaded yet or are those of the events.
abbrev pub Represents : FileAuditStore → List AuditEvent → Type 0
Represents s events = (s ≡ holding events []) ⊎ (s ≡ holding events (ids events))

pub filled-ids : (events : List AuditEvent) → ids (map filled_event events) ≡ ids events
filled-ids [] = refl
filled-ids (e ∷ events) = ap (λ rest. e.event_id ∷ rest) (filled-ids events)

pub filled-last :
    (events : List AuditEvent) → last_sequence (map filled_event events) ≡ last_sequence events
filled-last [] = refl
filled-last (e ∷ []) = refl
filled-last (e ∷ d ∷ events) = filled-last (d ∷ events)

pub seen-has_id :
    (i : String) (events : List AuditEvent) → any (str_eq i) (ids events) ≡ has_id i events
seen-has_id i [] = refl
seen-has_id i (e ∷ events) = rw (seen-has_id i events) refl

module _ (py : Builtins) where
  read_lines-map :
      (events : List AuditEvent)
      → read_lines py (map (λ e. written (to_dict e)) events) ≡ ok (map filled_event events, false)
  unfolding read_lines
  read_lines-map [] = refl
  read_lines-map (e ∷ events) = rw (from_dict-to_dict py e) (rw (read_lines-map events) refl)

  pub read_raw-holding :
      (events : List AuditEvent) (seen : List String)
      → read_raw py (holding events seen) ≡ ok (map filled_event events, false)
  unfolding read_raw
  read_raw-holding events seen = read_lines-map events

  pub latest-holding :
      (events : List AuditEvent) (seen : List String)
      → numbered 1 events ≡ true
      → latest_sequence py (holding events seen) ≡ ok (length events)
  unfolding latest_sequence
  latest-holding events seen h =
      ground
        (arith, read_raw-holding events seen, filled-last events, last_sequence-numbered events h)

  load_fresh :
      (events : List AuditEvent)
      → load_seen py (holding events []) ≡ (ok (ids events), holding events (ids events))
  unfolding load_seen
  load_fresh events = rw (read_raw-holding events []) (rw (filled-ids events) refl)

  pub load_seen-Represents :
      (s : FileAuditStore) (events : List AuditEvent)
      → Represents s events
      → load_seen py s ≡ (ok (ids events), holding events (ids events))
  unfolding load_seen
  load_seen-Represents s events (inl e) =
      subst (λ x. load_seen py x ≡ (ok (ids events), holding events (ids events))) (sym e)
        (load_fresh events)
  load_seen-Represents s [] (inr e) =
      subst (λ x. load_seen py x ≡ (ok [], holding [] [])) (sym e) (load_fresh [])
  load_seen-Represents s (d ∷ events) (inr e) = rw e refl

  -- What `append` does to a store for the events, by what the abstract log says of the event.
  abbrev pub appended :
      AuditEvent
      → Write
      → FileAuditStore
      → List AuditEvent
      → Result {0} Unit
      → Result {0} Unit × FileAuditStore
  appended e w s events (ok _) = write_event py e w (holding events (ids events))
  appended e w s events (raised x) =
      (raised x, if str_eq e.schema_version audit_schema then holding events (ids events) else s)

  pub append_admits :
      (e : AuditEvent) (w : Write) (s : FileAuditStore) (events : List AuditEvent)
      → Represents s events
      → numbered 1 events ≡ true
      → append py e w s ≡ appended e w s events (admit e events)
  unfolding append
  append_admits e w s events r h = ground (
    arith,
    load_seen-Represents s events r,
    seen-has_id e.event_id events,
    latest-holding events (ids events) h,
  )

  pub write-kept :
      (e : AuditEvent) (events : List AuditEvent)
      → write_event py e kept (holding events (ids events))
        ≡ (ok tt, holding (events ++ e ∷ []) (ids (events ++ e ∷ [])))
  unfolding write_event join
  write-kept e events =
      rw (map-append (λ d. written (to_dict d)) events (e ∷ []))
        (rw (map-append (λ d. d.event_id) events (e ∷ [])) refl)

  pub write-lost :
      (e : AuditEvent) (s : FileAuditStore)
      → write_event py e lost s ≡ (raised persistence_error, s)
  unfolding write_event
  write-lost e s = refl
