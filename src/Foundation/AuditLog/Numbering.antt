-- ===== src/Foundation/AuditLog/Numbering.antt =====
-- The abstract audit log that `AuditStore` of foundation/durable.py promises: a list of events that
-- only grows, the n-th event with the sequence number n, and no identifier twice.
use ci_failure_orchestrator.Common.{
  ℕ, ◌+◌, String, Bool, true, false, not, List, [], ◌∷◌, ◌++◌, any, length, str_eq, ◌==◌,
  if◌then◌else◌, ◌≡◌, refl, arith, any-append, ==_iff, eq_iff,
}
use ci_failure_orchestrator.Foundation.Exec.{
  persistence_error, unsupported_schema, Result, ok, raised,
}
use ci_failure_orchestrator.Foundation.Durable.{AuditEvent, audit_schema}
use ci_failure_orchestrator.Foundation.AuditLog.{last_sequence}

abbrev pub has_id : String → List AuditEvent → Bool
has_id i events = any (λ e. str_eq i e.event_id) events

-- Whether the event is the next one, or the exception for it.
abbrev pub admit : AuditEvent → List AuditEvent → Result {0} Unit
admit e events =
    if not (str_eq e.schema_version audit_schema)
    then raised unsupported_schema
    else if has_id e.event_id events
    then raised persistence_error
    else if not (e.sequence == length events + 1)
    then raised persistence_error
    else ok tt

-- The sequence numbers count up from `n`.
abbrev pub numbered : ℕ → List AuditEvent → Bool
numbered n [] = true
numbered n (e ∷ events) = if e.sequence == n then numbered (n + 1) events else false

-- No two events have one identifier.
abbrev pub distinct : List AuditEvent → Bool
distinct [] = true
distinct (e ∷ events) = if has_id e.event_id events then false else distinct events

numbered-append :
    (n : ℕ) (events : List AuditEvent) (e : AuditEvent)
    → numbered n events ≡ true
    → e.sequence ≡ length events + n
    → numbered n (events ++ e ∷ []) ≡ true
numbered-append n [] e h eq = ground arith
numbered-append n (d ∷ events) e h eq = ground (arith, numbered-append (n + 1) events e)

distinct-append :
    (events : List AuditEvent) (e : AuditEvent)
    → distinct events ≡ true
    → has_id e.event_id events ≡ false
    → distinct (events ++ e ∷ []) ≡ true
distinct-append [] e h fresh = refl
distinct-append (d ∷ events) e h fresh = ground (
  arith,
  any-append (λ c. str_eq d.event_id c.event_id) events (e ∷ []),
  eq_iff d.event_id e.event_id,
  eq_iff e.event_id d.event_id,
  distinct-append events e,
)

sequence-next :
    (n : ℕ) (e : AuditEvent) (events : List AuditEvent)
    → numbered n (e ∷ events) ≡ true
    → last_sequence (e ∷ events) + 1 ≡ length events + n + 1
sequence-next n e [] h = ground arith
sequence-next n e (d ∷ events) h = ground (arith, sequence-next (n + 1) d events)

pub last_sequence-numbered :
    (events : List AuditEvent) → numbered 1 events ≡ true → last_sequence events ≡ length events
last_sequence-numbered [] h = refl
last_sequence-numbered (e ∷ events) h = ground (arith, sequence-next 1 e events)

-- An event with the audit schema, a new identifier and the next number is admitted.
pub admit_next :
    (e : AuditEvent) (events : List AuditEvent)
    → e.schema_version ≡ audit_schema
    → has_id e.event_id events ≡ false
    → e.sequence ≡ length events + 1
    → admit e events ≡ ok tt
admit_next e events schema fresh next =
    ground (arith, eq_iff e.schema_version audit_schema, ==_iff e.sequence (length events + 1))

-- What is admitted keeps the numbering and the identifiers.
pub admit-numbered :
    (e : AuditEvent) (events : List AuditEvent)
    → admit e events ≡ ok tt
    → numbered 1 events ≡ true
    → numbered 1 (events ++ e ∷ []) ≡ true
admit-numbered e events a h =
    ground (arith, ==_iff e.sequence (length events + 1), numbered-append 1 events e)

pub admit-distinct :
    (e : AuditEvent) (events : List AuditEvent)
    → admit e events ≡ ok tt
    → distinct events ≡ true
    → distinct (events ++ e ∷ []) ≡ true
admit-distinct e events a h = ground (arith, distinct-append events e)
