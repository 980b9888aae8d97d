-- ===== src/Foundation/Journal.antt =====
-- `RunPersistence` of ci_failure_orchestrator/foundation/persistence.py: the state of the run in memory, and
-- its checkpoints and events. The metadata of an event is given sanitised.
pub mod Counts
pub mod Steps
use ci_failure_orchestrator.Common.{
  ℕ, ◌+◌, String, List, [], ◌∷◌, ◌++◌, Option, none, some, str_eq, if◌then◌else◌,
}
use ci_failure_orchestrator.Foundation.Json.{Json, text, Builtins, Members, end}
use ci_failure_orchestrator.Foundation.Exec.{
  Exception, persistence_error, Result, ok, raised, Exec, raise, return, continue, ◌>>=◌, ◌>>◌,
}
use ci_failure_orchestrator.Foundation.Durable.{
  AuditEvent, AuditEventType, DurableEvidenceRef, run_created, event_value, audit_schema,
  durable_schema, Stamp,
}
use ci_failure_orchestrator.Foundation.RunDir.{
  DurableRunState, RunDir, create_run, save_run, append_event, write_json,
}

-- The directory with the store's identifiers, and `_durable`.
pub record RunPersistence : Type 0 where
  pub dir : RunDir
  pub durable : Option DurableRunState
  pub actor : String

-- A call on the stores.
abbrev pub on_dir : {A : Type 0} → Exec RunDir A → Exec RunPersistence A
on_dir m j = let (r, d) = m j.dir in (r, record j { dir = d })

-- The assignments to the state in memory.
abbrev pub set_durable : DurableRunState → Exec RunPersistence Unit
set_durable run j = (ok tt, record j { durable = some run })

-- `self.durable`.
abbrev pub the_durable : Exec RunPersistence DurableRunState
the_durable j = elim j.durable [ none ↦ (raised persistence_error, j) | some run ↦ (ok run, j) ]

abbrev pub new_run : String → String → DurableRunState
new_run run_id workflow_status = record {
  schema_version = durable_schema;
  run_id = run_id;
  workflow_status = workflow_status;
  technical_status = none;
  policy_outcome = none;
  current_attempt = 0;
  failure_event_ref = none;
  classification_ref = none;
  current_plan_ref = none;
  current_proposal_ref = none;
  latest_evaluation_ref = none;
  latest_policy_decision_ref = none;
  latest_retry_decision_ref = none;
  escalation_ref = none;
  reviewer_decision_ref = none;
  last_event_sequence = 0;
  stop_reason = none;
}

-- What the caller of `emit` passes on.
pub record Emission : Type 0 where
  pub event_type : String
  pub state_before : Option String
  pub state_after : Option String
  pub evidence_refs : List DurableEvidenceRef
  pub metadata : Members
  pub component : String

abbrev pub or_status : Option String → DurableRunState → String
or_status given run = elim given [ none ↦ run.workflow_status | some s ↦ s ]

abbrev pub emitted_event : Stamp → String → DurableRunState → Emission → AuditEvent
emitted_event stamp actor run e = record {
  schema_version = audit_schema;
  event_id = stamp.event_id;
  run_id = run.run_id;
  sequence = run.last_event_sequence + 1;
  timestamp = stamp.timestamp;
  event_type = e.event_type;
  actor = actor;
  component = e.component;
  state_before = text (or_status e.state_before run);
  state_after = text (or_status e.state_after run);
  evidence_refs = e.evidence_refs;
  metadata = e.metadata;
}

-- The state in memory behind the event.
abbrev pub emitted_state : DurableRunState → Emission → DurableRunState
emitted_state run e = record run {
  last_event_sequence = run.last_event_sequence + 1;
  workflow_status = or_status e.state_after run;
}

module _ (py : Builtins) where
  unfoldable pub emit : Stamp → Emission → Exec RunPersistence AuditEvent
  emit stamp e = do
    run ← the_durable
    actor ← λ j. (ok j.actor, j)
    on_dir (append_event py (emitted_event stamp actor run e))
    set_durable (emitted_state run e)
    on_dir (save_run (emitted_state run e))
    return (emitted_event stamp actor run e)

  unfoldable pub start_run : Stamp → String → String → Exec RunPersistence DurableRunState
  start_run stamp run_id workflow_status = do
    on_dir (create_run (new_run run_id workflow_status))
    set_durable (new_run run_id workflow_status)
    emit stamp (record {
      event_type = event_value run_created;
      state_before = none;
      state_after = some workflow_status;
      evidence_refs = [];
      metadata = end;
      component = "foundation";
    })
    the_durable

-- The attributes of the state that hold evidence references; the callers of `checkpoint` pass no other
-- keyword. The source sets any attribute that a keyword names, and ignores one that names none.
pub data EvidenceRef : Type 0 where
  failure_event classification current_plan current_proposal latest_evaluation
        latest_policy_decision latest_retry_decision escalation reviewer_decision :
      EvidenceRef

-- The fields that a checkpoint may set.
pub record Checkpoint : Type 0 where
  pub workflow_status : Option String
  pub technical_status : Option String
  pub policy_outcome : Option String
  pub current_attempt : Option ℕ
  pub stop_reason : Option String
  pub refs : List (EvidenceRef × Option String)

abbrev pub given_or : {A : Type 0} → Option A → A → A
given_or given old = elim given [ none ↦ old | some a ↦ a ]

-- `if value is not None: durable.field = value`.
abbrev pub given_or_old : {A : Type 0} → Option A → Option A → Option A
given_or_old given old = elim given [ none ↦ old | some a ↦ some a ]

-- `setattr`; the evidence index is left out.
unfoldable pub set_ref : EvidenceRef → String → DurableRunState → DurableRunState
set_ref failure_event value run = record run { failure_event_ref = some value }
set_ref classification value run = record run { classification_ref = some value }
set_ref current_plan value run = record run { current_plan_ref = some value }
set_ref current_proposal value run = record run { current_proposal_ref = some value }
set_ref latest_evaluation value run = record run { latest_evaluation_ref = some value }
set_ref latest_policy_decision value run = record run { latest_policy_decision_ref = some value }
set_ref latest_retry_decision value run = record run { latest_retry_decision_ref = some value }
set_ref escalation value run = record run { escalation_ref = some value }
set_ref reviewer_decision value run = record run { reviewer_decision_ref = some value }

unfoldable pub set_refs : List (EvidenceRef × Option String) → DurableRunState → DurableRunState
set_refs [] run = run
set_refs ((key, none) ∷ refs) run = set_refs refs run
set_refs ((key, some value) ∷ refs) run = set_refs refs (set_ref key value run)

unfoldable pub checkpointed : Checkpoint → DurableRunState → DurableRunState
checkpointed c run = set_refs c.refs (record run {
  workflow_status = given_or c.workflow_status run.workflow_status;
  technical_status = given_or_old c.technical_status run.technical_status;
  policy_outcome = given_or_old c.policy_outcome run.policy_outcome;
  current_attempt = given_or c.current_attempt run.current_attempt;
  stop_reason = given_or_old c.stop_reason run.stop_reason;
})

unfoldable pub checkpoint : Checkpoint → Exec RunPersistence Unit
checkpoint c = do
  run ← the_durable
  set_durable (checkpointed c run)
  on_dir (save_run (checkpointed c run))
