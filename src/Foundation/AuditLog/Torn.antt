-- ===== src/Foundation/AuditLog/Torn.antt =====
-- What a torn line does to events.jsonl (`FileAuditStore` of foundation/durable.py): the beginning of
-- an event that a failed write, or a crash, leaves without a line end.
use ci_failure_orchestrator.Common.{
  String, true, false, str_eq, any-append, is_empty-append, List, [], ◌∷◌, ◌++◌, map, none, some,
  ◌≡◌, refl, ap, arith,
}
use ci_failure_orchestrator.Foundation.Json.{Builtins}
use ci_failure_orchestrator.Foundation.Exec.{Exception, persistence_error, ok, raised}
use ci_failure_orchestrator.Foundation.Durable.{AuditEvent, to_dict}
use ci_failure_orchestrator.Foundation.Durable.Roundtrip.{filled_event, from_dict-to_dict}
use ci_failure_orchestrator.Foundation.AuditLog.{
  FileAuditStore, restart, Line, malformed, written, kept, cut, read_lines, read_raw, read_events,
  latest_sequence, load_seen, write_event, append, join,
}
use ci_failure_orchestrator.Foundation.AuditLog.Numbering.{admit, numbered, last_sequence-numbered}
use ci_failure_orchestrator.Foundation.AuditLog.Holding.{
  ids, Represents, filled-ids, filled-last, seen-has_id, append_admits,
}

abbrev lines_of : List AuditEvent → List Line
lines_of = map λ e. written (to_dict e)

-- The events and a torn line behind them: as it is left, and with a line end.
abbrev torn : List AuditEvent → List String → FileAuditStore
torn events seen = record {
  lines = lines_of events;
  unterminated = some malformed;
  seen_ids = seen;
}

abbrev closed : List AuditEvent → List String → FileAuditStore
closed events seen = record {
  lines = lines_of events ++ malformed ∷ [];
  unterminated = none;
  seen_ids = seen;
}

module _ (py : Builtins) where
  read_lines-torn :
      (events : List AuditEvent)
      → read_lines py (lines_of events ++ malformed ∷ []) ≡ ok (map filled_event events, true)
  unfolding read_lines
  read_lines-torn [] = refl
  read_lines-torn (e ∷ events) = rw (from_dict-to_dict py e) (rw (read_lines-torn events) refl)

  read_lines-behind :
      (events : List AuditEvent) (l : Line)
      → read_lines py ((lines_of events ++ malformed ∷ []) ++ l ∷ []) ≡ raised persistence_error
  unfolding read_lines
  read_lines-behind [] l = refl
  read_lines-behind (e ∷ events) l =
      rw (from_dict-to_dict py e) (rw (read_lines-behind events l) refl)

  -- A store that reads as the events and a torn line takes what the abstract log would take.
  append-torn :
      (e : AuditEvent) (s : FileAuditStore) (events : List AuditEvent)
      → s.seen_ids ≡ []
      → ((seen : List String)
          → read_raw py (record s { seen_ids = seen }) ≡ ok (map filled_event events, true))
      → numbered 1 events ≡ true
      → admit e events ≡ ok tt
      → append py e kept s ≡ write_event py e kept (record s { seen_ids = ids events })
  unfolding append load_seen latest_sequence
  append-torn e s events z reads h a = ground (
    arith,
    reads s.seen_ids,
    reads (ids events),
    filled-ids events,
    filled-last events,
    seen-has_id e.event_id events,
    last_sequence-numbered events h,
  )

  torn_write :
      (e : AuditEvent) (s : FileAuditStore) (events : List AuditEvent)
      → Represents s events
      → numbered 1 events ≡ true
      → admit e events ≡ ok tt
      → append py e cut s ≡ (raised persistence_error, torn events (ids events))
  unfolding write_event
  torn_write e s events r h a = rw (append_admits py e cut s events r h) (rw a refl)

  read_raw-torn :
      (events : List AuditEvent) (seen : List String)
      → read_raw py (torn events seen) ≡ ok (map filled_event events, true)
  unfolding read_raw
  read_raw-torn events seen = read_lines-torn events

  read_raw-closed :
      (events : List AuditEvent) (seen : List String)
      → read_raw py (closed events seen) ≡ ok (map filled_event events, true)
  unfolding read_raw
  read_raw-closed events seen = read_lines-torn events

  read_events-raised :
      (s : FileAuditStore) (x : Exception) → read_raw py s ≡ raised x → read_events py s ≡ raised x
  unfolding read_events
  read_events-raised s x e = ground arith

  -- The two appends behind it.
  module _ (events : List AuditEvent) (h : numbered 1 events ≡ true) where
    append_once :
        (d : AuditEvent)
        → admit d events ≡ ok tt
        → append py d kept (torn events []) ≡ (ok tt, closed events (ids events ++ d.event_id ∷ []))
    unfolding write_event join
    append_once d a = append-torn d (torn events []) events refl (read_raw-torn events) h a

    -- In the process that has appended the event that is lost.
    append_twice :
        (d c : AuditEvent)
        → admit c events ≡ ok tt
        → str_eq c.event_id d.event_id ≡ false
        → append py c kept (closed events (ids events ++ d.event_id ∷ [])) ≡ (
          ok tt,
          record {
            lines = (lines_of events ++ malformed ∷ []) ++ written (to_dict c) ∷ [];
            unterminated = none;
            seen_ids = (ids events ++ d.event_id ∷ []) ++ c.event_id ∷ [];
          },
        )
    unfolding append load_seen latest_sequence write_event join
    append_twice d c a other = ground (
      arith,
      is_empty-append (ids events) (d.event_id ∷ []),
      read_raw-closed events (ids events ++ d.event_id ∷ []),
      filled-last events,
      any-append (str_eq c.event_id) (ids events) (d.event_id ∷ []),
      seen-has_id c.event_id events,
      last_sequence-numbered events h,
    )

    twice-read :
        (d c : AuditEvent)
        → admit c events ≡ ok tt
        → str_eq c.event_id d.event_id ≡ false
        → read_raw py (append py c kept (closed events (ids events ++ d.event_id ∷ []))).1
          ≡ raised persistence_error
    unfolding read_raw
    twice-read d c a other =
        rw (append_twice d c a other) (rw (read_lines-behind events (written (to_dict c))) refl)

  -- The beginning of an event is left at the end of a log by a failed write, and the process starts
  -- again. The next event that fits the log is then accepted and not written as a record: what is
  -- read is what was there before. One after it, appended by the same process, that fits the log
  -- as it reads and has another identifier is accepted too, and from then on the log is not read any
  -- more, by either way of reading.
  pub torn_line_loses :
      (e d c : AuditEvent) (s : FileAuditStore) (events : List AuditEvent)
      → Represents s events
      → numbered 1 events ≡ true
      → admit e events ≡ ok tt
      → admit d events ≡ ok tt
      → admit c events ≡ ok tt
      → str_eq c.event_id d.event_id ≡ false
      → let left = append py e cut s in
        let once = append py d kept (restart left.1) in
        let twice = append py c kept once.1 in
        (left.0 ≡ raised persistence_error)
        × (read_raw py left.1 ≡ ok (map filled_event events, true))
        × (once.0 ≡ ok tt)
        × (read_raw py once.1 ≡ ok (map filled_event events, true))
        × (twice.0 ≡ ok tt)
        × (read_raw py twice.1 ≡ raised persistence_error)
        × (read_events py twice.1 ≡ raised persistence_error)
  torn_line_loses e d c s events r h a b f other =
      let unread = twice-read events h d c f other in
      rw (torn_write e s events r h a) (
        rw (append_once events h d b) (
          refl,
          read_raw-torn events (ids events),
          refl,
          read_raw-closed events (ids events ++ d.event_id ∷ []),
          ap (λ p. p.0) (append_twice events h d c f other),
          unread,
          read_events-raised _ persistence_error unread,
        ))
