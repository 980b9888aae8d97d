-- ===== src/Foundation/HumanDecision.antt =====
-- Explicit decisions of a human reviewer: ci_failure_orchestrator/foundation/human_decision.py. The
-- messages of the results are left out; the `comment` is the text cut to 500 characters.
pub mod Files
pub mod Recorded
pub mod Final
pub mod Moves
use ci_failure_orchestrator.Common.{
  ℕ, ◌+◌, String, Bool, true, false, not, List, [], ◌∷◌, Option, none, some, is_empty, str_eq,
  if◌then◌else◌,
}
use ci_failure_orchestrator.Foundation.Json.{bool, text, Builtins, Members, end, member}
use ci_failure_orchestrator.Foundation.Exec.{ok, raised, Exec, reads, return, ◌>>=◌, ◌>>◌}
use ci_failure_orchestrator.Foundation.StateMachine.{RunStatus, status_value}
use ci_failure_orchestrator.Foundation.StateMachine
use ci_failure_orchestrator.Lifecycle.{initial}
use ci_failure_orchestrator.Foundation.Durable.{
  AuditEvent, AuditEventType, DurableEvidenceRef, human_decision_recorded, human_approved,
  human_rejected, event_value, audit_schema, Stamp,
}
use ci_failure_orchestrator.Foundation.AuditLog.{latest_sequence}
use ci_failure_orchestrator.Foundation.RunDir.{
  DurableRunState, RunDir, load_run, save_run, write_json, append_event, new_audit_store,
}
use ci_failure_orchestrator.Foundation.Reviewer.{
  ReviewerAction, approve, reject, request_changes, defer, action_value, parse_action,
  HumanDecisionStatus, applied, recorded, blocked, inconsistent, Resolution, resolved, unresolved,
  unreadable_package, Review, resolve_escalation,
}
use ci_failure_orchestrator.Foundation.Recovery.{verify_run_consistency, IssueCode}

pub record HumanDecisionResult : Type 0 where
  pub status : HumanDecisionStatus
  pub workflow_status_before : String
  pub workflow_status_after : String
  pub last_sequence : ℕ
  pub primary_workspace_mutated : Bool

abbrev pub awaiting : String
awaiting = status_value RunStatus.awaiting_human

-- A result that leaves the run as it is.
abbrev pub unchanged : HumanDecisionStatus → DurableRunState → HumanDecisionResult
unchanged status run = record {
  status = status;
  workflow_status_before = run.workflow_status;
  workflow_status_after = run.workflow_status;
  last_sequence = run.last_event_sequence;
  primary_workspace_mutated = false;
}

abbrev pub not_loaded : HumanDecisionResult
not_loaded = record {
  status = blocked;
  workflow_status_before = "";
  workflow_status_after = "";
  last_sequence = 0;
  primary_workspace_mutated = false;
}

-- The table `transitions`.
abbrev pub next_status : ReviewerAction → RunStatus
next_status approve = RunStatus.approved
next_status reject = RunStatus.rejected
next_status request_changes = RunStatus.awaiting_human
next_status defer = RunStatus.awaiting_human

abbrev pub terminal_event : ReviewerAction → Option AuditEventType
terminal_event approve = some human_approved
terminal_event reject = some human_rejected
terminal_event _ = none

abbrev pub result_status : ReviewerAction → HumanDecisionStatus
result_status approve = applied
result_status reject = applied
result_status _ = recorded

abbrev pub decision_stop_reason : ReviewerAction → Option String → Option String
decision_stop_reason approve before = some "human_approve"
decision_stop_reason reject before = some "human_reject"
decision_stop_reason _ before = before

-- The event of a decision. Its metadata ends with what the second event leaves out.
abbrev pub decision_event :
    AuditEventType
    → Stamp
    → DurableRunState
    → ℕ
    → Review
    → ReviewerAction
    → DurableEvidenceRef
    → Members
    → AuditEvent
decision_event t stamp run sequence review reviewed decision_ref more = record {
  schema_version = audit_schema;
  event_id = stamp.event_id;
  run_id = run.run_id;
  sequence = sequence;
  timestamp = stamp.timestamp;
  event_type = event_value t;
  actor = if str_eq review.reviewer_id "" then "human" else review.reviewer_id;
  component = "human_decision";
  state_before = text run.workflow_status;
  state_after = text (status_value (next_status reviewed));
  evidence_refs = decision_ref ∷ [];
  metadata =
      member "action" (text (action_value reviewed))
        (member "primary_workspace_mutated" (bool false) more);
}

-- The state behind the first event.
abbrev pub decided_state :
    DurableRunState → ReviewerAction → DurableEvidenceRef → ℕ → DurableRunState
decided_state run reviewed decision_ref sequence = record run {
  last_event_sequence = sequence;
  reviewer_decision_ref = some decision_ref.ref;
  workflow_status = status_value (next_status reviewed);
  stop_reason = decision_stop_reason reviewed run.stop_reason;
}

abbrev pub decided_result : DurableRunState → ReviewerAction → ℕ → HumanDecisionResult
decided_result run reviewed sequence = record {
  status = result_status reviewed;
  workflow_status_before = run.workflow_status;
  workflow_status_after = status_value (next_status reviewed);
  last_sequence = sequence;
  primary_workspace_mutated = false;
}

-- The step of the state machine out of AWAITING_HUMAN; `none` is the InvalidStateTransition.
abbrev pub move_allowed : ReviewerAction → Bool
move_allowed reviewed =
    if StateMachine.is (next_status reviewed) RunStatus.awaiting_human
    then true
    else elim (StateMachine.transition (initial RunStatus.awaiting_human) (next_status reviewed)
        "human") [ none ↦ false | some _ ↦ true ]

module _ (py : Builtins) where
  -- `audit.append(...)` under the next sequence number, and the new number.
  unfoldable pub append_next : (ℕ → AuditEvent) → Exec RunDir ℕ
  append_next event = do
    last ← reads λ d. latest_sequence py d.audit
    append_event py (event (last + 1))
    return (last + 1)

  -- The second event, of a decision that ends the run.
  unfoldable pub follow_up :
      Option AuditEventType
      → (AuditEventType → ℕ → AuditEvent)
      → DurableRunState
      → ℕ
      → Exec RunDir ℕ
  follow_up none event run sequence = return sequence
  follow_up (some t) event run sequence = do
    sequence2 ← append_next (event t)
    save_run (record run { last_event_sequence = sequence2 })
    return sequence2

  -- The events and states of a decision whose document is written.
  unfoldable pub record_decision :
      Stamp
      → Stamp
      → Review
      → ReviewerAction
      → String
      → DurableRunState
      → DurableEvidenceRef
      → Exec RunDir HumanDecisionResult
  record_decision stamp stamp2 review reviewed escalation run decision_ref = do
    sequence ← append_next λ n.
        decision_event human_decision_recorded stamp run n review reviewed decision_ref
          (member "escalation_id" (text escalation) (member "comment" (text review.comment) end))
    save_run (decided_state run reviewed decision_ref sequence)
    final ←
        follow_up (terminal_event reviewed)
          (λ t n. decision_event t stamp2 run n review reviewed decision_ref end)
          (decided_state run reviewed decision_ref sequence) sequence
    return (decided_result run reviewed final)

  abbrev pub decide_resolved :
      Stamp
      → Stamp
      → Review
      → ReviewerAction
      → DurableRunState
      → Resolution
      → Exec RunDir HumanDecisionResult
  decide_resolved stamp stamp2 review reviewed run unresolved = return (unchanged blocked run)
  decide_resolved stamp stamp2 review reviewed run unreadable_package =
      return (unchanged inconsistent run)
  decide_resolved stamp stamp2 review reviewed run (resolved escalation) = do
    decision_ref ← write_json "reviewer" "decision.json"
    if move_allowed reviewed
        then record_decision stamp stamp2 review reviewed escalation run decision_ref
        else return (unchanged blocked run)

  unfoldable pub decide_parsed :
      Stamp
      → Stamp
      → Review
      → DurableRunState
      → Option ReviewerAction
      → Exec RunDir HumanDecisionResult
  decide_parsed stamp stamp2 review run none = return (unchanged blocked run)
  decide_parsed stamp stamp2 review run (some reviewed) = do
    escalation ← reads λ d. resolve_escalation py review.escalation_id d.escalation_summary
    decide_resolved stamp stamp2 review reviewed run escalation

  unfoldable pub decide_loaded :
      Stamp → Stamp → Review → DurableRunState → List IssueCode → Exec RunDir HumanDecisionResult
  decide_loaded stamp stamp2 review run issues =
      if not (is_empty issues)
      then return (unchanged inconsistent run)
      else if not (str_eq run.workflow_status awaiting)
      then return (unchanged blocked run)
      else decide_parsed stamp stamp2 review run (parse_action review.action)

  -- `apply_reviewer_decision`.
  unfoldable pub apply_reviewer_decision : Stamp → Stamp → Review → Exec RunDir HumanDecisionResult
  apply_reviewer_decision stamp stamp2 review d =
      let opened = new_audit_store d in
      elim (load_run opened) [
        | raised _ ↦ (ok not_loaded, opened)
        | ok run ↦
            (do
              issues ← reads (verify_run_consistency py (some run) none)
              decide_loaded stamp stamp2 review run issues)
              opened
      ]

  -- `append_operator_event`: no check of the run.
  unfoldable pub append_operator_event :
      Stamp → AuditEventType → String → String → List DurableEvidenceRef → Members → Exec RunDir ℕ
  append_operator_event stamp t actor component refs metadata = do
    λ d. (ok tt, new_audit_store d)
    run ← reads load_run
    sequence ← append_next λ n. record {
      schema_version = audit_schema;
      event_id = stamp.event_id;
      run_id = run.run_id;
      sequence = n;
      timestamp = stamp.timestamp;
      event_type = event_value t;
      actor = if str_eq actor "" then "operator" else actor;
      component = component;
      state_before = text run.workflow_status;
      state_after = text run.workflow_status;
      evidence_refs = refs;
      metadata = metadata;
    }
    save_run (record run { last_event_sequence = sequence })
    return sequence
