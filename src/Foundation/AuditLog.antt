-- ===== src/Foundation/AuditLog.antt =====
-- `FileAuditStore` of ci_failure_orchestrator/foundation/durable.py: the events.jsonl of one run.
pub mod Numbering
pub mod Holding
pub mod Refines
pub mod Torn
use ci_failure_orchestrator.Common.{
  ℕ, ◌+◌, String, Bool, true, false, not, List, [], ◌∷◌, ◌++◌, map, Option, none, some, any,
  is_empty, last?, str_eq, ◌==◌, if◌then◌else◌,
}
use ci_failure_orchestrator.Foundation.Json.{Json, Builtins, Decoded, decoded, rejected}
use ci_failure_orchestrator.Foundation.Json
use ci_failure_orchestrator.Foundation.Exec.{
  Exception, persistence_error, unsupported_schema, attribute_error, Result, ok, raised, Exec,
  raise, reads, raise_if, continue, ◌>>=◌, ◌>>◌,
}
use ci_failure_orchestrator.Foundation.Durable.{AuditEvent, audit_schema, to_dict, from_dict}

-- A line of the file: white space, a text that is no JSON, or the JSON of a value.
pub data Line : Type 0 where
  blank malformed : Line
  written : Json → Line

-- The complete lines, the text behind the last line end, and the identifiers that this process has
-- seen. An absent file has no lines.
pub record FileAuditStore : Type 0 where
  pub lines : List Line
  pub unterminated : Option Line
  pub seen_ids : List String

abbrev pub empty_store : FileAuditStore
empty_store = record { lines = []; unterminated = none; seen_ids = [] }

-- A new process has seen no identifier.
abbrev pub restart : FileAuditStore → FileAuditStore
restart s = record s { seen_ids = [] }

-- What the file system does with the text of an event and its line end: it keeps both, it raises
-- with none of it written, with its beginning written, or with all but the line end.
pub data Write : Type 0 where
  kept lost cut no_line_end : Write

abbrev pub all_lines : FileAuditStore → List Line
all_lines s = elim s.unterminated [ none ↦ s.lines | some l ↦ s.lines ++ l ∷ [] ]

-- The line that the text of an object makes with what stands before it. A text that is not blank
-- and an object behind it are no JSON.
unfoldable pub join : Option Line → Json → Line
join none j = written j
join (some blank) j = written j
join (some malformed) j = malformed
join (some (written _)) j = malformed

abbrev pub prepend : AuditEvent → Result (List AuditEvent × Bool) → Result (List AuditEvent × Bool)
prepend e (ok (events, corrupt)) = ok (e ∷ events, corrupt)
prepend e (raised x) = raised x

-- A record that does not decode: the last one is only reported.
abbrev pub corrupt_at : List Line → Result (List AuditEvent × Bool)
corrupt_at [] = ok ([], true)
corrupt_at (_ ∷ _) = raised persistence_error

-- `events[-1].sequence if events else 0`.
abbrev pub last_sequence : List AuditEvent → ℕ
last_sequence events = elim (last? events) [ none ↦ 0 | some e ↦ e.sequence ]

module _ (py : Builtins) where
  abbrev pub read_record :
      Decoded AuditEvent
      → List Line
      → Result (List AuditEvent × Bool)
      → Result (List AuditEvent × Bool)
  read_record (decoded e) later rest = prepend e rest
  read_record rejected later rest = corrupt_at later
  read_record Json.attribute_error later rest = raised attribute_error

  -- The loop of `_read_raw`.
  unfoldable pub read_lines : List Line → Result (List AuditEvent × Bool)
  read_lines [] = ok ([], false)
  read_lines (blank ∷ later) = read_lines later
  read_lines (malformed ∷ later) = corrupt_at later
  read_lines (written j ∷ later) = read_record (from_dict py j) later (read_lines later)

  -- `_read_raw`, which is `read_events_tolerant`.
  unfoldable pub read_raw : FileAuditStore → Result (List AuditEvent × Bool)
  read_raw s = read_lines (all_lines s)

  -- `read_events`.
  unfoldable pub read_events : FileAuditStore → Result (List AuditEvent)
  read_events s = elim (read_raw s) [
    | raised x ↦ raised x
    | ok (events, corrupt) ↦ if corrupt then raised persistence_error else ok events
  ]

  unfoldable pub latest_sequence : FileAuditStore → Result ℕ
  latest_sequence s = elim (read_raw s) [
    | raised x ↦ raised x
    | ok (events, _) ↦ ok (last_sequence events)
  ]

  -- The set of identifiers, loaded from the file while it is empty.
  unfoldable pub load_seen : Exec FileAuditStore (List String)
  load_seen s =
      if is_empty s.seen_ids
      then elim (read_raw s) [
        | raised x ↦ (raised x, s)
        | ok (events, _) ↦
            let ids = map (λ e. e.event_id) events in (ok ids, record s { seen_ids = ids })
      ]
      else (ok s.seen_ids, s)

  -- `handle.write(line + "\n")` and `seen.add`.
  unfoldable pub write_event : AuditEvent → Write → Exec FileAuditStore Unit
  write_event e kept s = (
    ok tt,
    record {
      lines = s.lines ++ join s.unterminated (to_dict e) ∷ [];
      unterminated = none;
      seen_ids = s.seen_ids ++ e.event_id ∷ [];
    },
  )
  write_event e lost s = (raised persistence_error, s)
  write_event e cut s = (raised persistence_error, record s { unterminated = some malformed })
  write_event e no_line_end s =
      (raised persistence_error, record s { unterminated = some (join s.unterminated (to_dict e)) })

  -- `append`.
  unfoldable pub append : AuditEvent → Write → Exec FileAuditStore Unit
  append e w = do
    raise_if (not (str_eq e.schema_version audit_schema)) unsupported_schema
    seen ← load_seen
    raise_if (any (str_eq e.event_id) seen) persistence_error
    last ← reads latest_sequence
    raise_if (not (e.sequence == last + 1)) persistence_error
    write_event e w
