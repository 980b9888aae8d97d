-- ===== src/Examples/Durable.antt =====
-- The theorems on the audit log, on recovery and on human decisions at concrete runs.
use ci_failure_orchestrator.Common.{
  ℕ, String, true, false, List, [], ◌∷◌, map, none, ◌≡◌, refl, inl,
}
use ci_failure_orchestrator.Foundation.Json.{Builtins, null, text, end, member, decoded}
use ci_failure_orchestrator.Foundation.Exec.{persistence_error, ok, raised}
use ci_failure_orchestrator.Foundation.Durable.{
  AuditEvent, evaluation_completed, event_value, audit_schema, to_dict, from_dict,
}
use ci_failure_orchestrator.Foundation.Durable.Roundtrip.{filled_event, from_dict-to_dict}
use ci_failure_orchestrator.Foundation.AuditLog.{
  FileAuditStore, empty_store, restart, kept, cut, read_raw, read_events, append,
}
use ci_failure_orchestrator.Foundation.AuditLog.Holding.{holding}
use ci_failure_orchestrator.Foundation.AuditLog.Refines.{
  Step, appends, restarts, IsLog, store_run, spec_run, store_refines,
}
use ci_failure_orchestrator.Foundation.AuditLog.Torn.{torn_line_loses}

abbrev pub py : Builtins
py = record { repr = λ v. "value"; parse_int = λ s. none; dict_of = λ vs. none }

abbrev pub event_at : String → ℕ → AuditEvent
event_at id n = record {
  schema_version = audit_schema;
  event_id = id;
  run_id = "run-1";
  sequence = n;
  timestamp = "2026-01-01";
  event_type = event_value evaluation_completed;
  actor = "";
  component = "foundation";
  state_before = null;
  state_after = text "EVALUATED";
  evidence_refs =
      record { kind = "evaluation"; ref = "evaluations/evaluation.json"; content_type = "" } ∷ [];
  metadata = member "passed" (text "yes") end;
}

abbrev pub first : AuditEvent
first = event_at "evt-1" 1

-- Another event that fits the same log.
abbrev third : AuditEvent
third = event_at "evt-3" 2

abbrev pub second : AuditEvent
second = event_at "evt-2" 2

from_dict-to_dict_example : from_dict py (to_dict first) ≡ decoded (filled_event first)
from_dict-to_dict_example = from_dict-to_dict py first

abbrev steps : List Step
steps =
    appends first true
    ∷ restarts
    ∷ appends first true
    ∷ appends second false
    ∷ appends second true
    ∷ appends (event_at "evt-3" 2) true
    ∷ []

store_refines_example :
    ((store_run py steps empty_store).0 ≡ (spec_run steps []).0)
    × (read_events py (store_run py steps empty_store).1
        ≡ ok (map filled_event (spec_run steps []).1))
    × IsLog (spec_run steps []).1
store_refines_example = store_refines py steps

-- The answers of the store to these steps.
answers :
    (store_run py steps empty_store).0
    ≡ ok tt
      ∷ ok tt
      ∷ raised persistence_error
      ∷ raised persistence_error
      ∷ ok tt
      ∷ raised persistence_error
      ∷ []
unfolding spec_run
answers = store_refines_example.0

abbrev one_event : FileAuditStore
one_event = holding (first ∷ []) []

torn_line_loses_example :
    let left = append py second cut one_event in
    let once = append py second kept (restart left.1) in
    let twice = append py third kept once.1 in
    (left.0 ≡ raised persistence_error)
    × (read_raw py left.1 ≡ ok (map filled_event (first ∷ []), true))
    × (once.0 ≡ ok tt)
    × (read_raw py once.1 ≡ ok (map filled_event (first ∷ []), true))
    × (twice.0 ≡ ok tt)
    × (read_raw py twice.1 ≡ raised persistence_error)
    × (read_events py twice.1 ≡ raised persistence_error)
torn_line_loses_example =
    torn_line_loses py second second third one_event (first ∷ []) (inl refl) refl refl refl refl
      refl
