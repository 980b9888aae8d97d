-- ===== src/Foundation/Recovery.antt =====
-- What a stored run may do next: ci_failure_orchestrator/foundation/recovery.py. The messages of the
-- issues and of the decisions are left out.
pub mod Stored
pub mod Resume
pub mod Statuses
use ci_failure_orchestrator.Common.{
  ℕ, ◌+◌, String, Bool, true, false, not, ◌&&◌, List, [], ◌∷◌, ◌++◌, map, Option, none, some, any,
  is_empty, last?, when, str_eq, ◌==◌, if◌then◌else◌,
}
use ci_failure_orchestrator.Foundation.Json.{Json, text, Builtins, Members, end, member}
use ci_failure_orchestrator.Foundation.Exec.{
  Exception, persistence_error, Result, ok, raised, Exec, reads, return, continue, ◌>>=◌, ◌>>◌,
}
use ci_failure_orchestrator.Foundation.StateMachine.{RunStatus, status_value}
use ci_failure_orchestrator.Foundation.StateMachine
use ci_failure_orchestrator.Foundation.Durable.{
  AuditEvent, AuditEventType, evaluation_completed, run_resumed, event_value, audit_schema, Stamp,
}
use ci_failure_orchestrator.Foundation.AuditLog.{last_sequence, read_raw, latest_sequence}
use ci_failure_orchestrator.Foundation.RunDir.{
  DurableRunState, RunDir, SummaryFile, is_file, load_run, save_run, append_event, new_audit_store,
}

pub data RecoveryStatus : Type 0 where
  resumable terminal requires_review inconsistent : RecoveryStatus

-- `decision.status is RecoveryStatus.RESUMABLE`.
abbrev pub is_resumable : RecoveryStatus → Bool
is_resumable resumable = true
is_resumable _ = false

pub record RecoveryDecision : Type 0 where
  pub status : RecoveryStatus
  pub workflow_status : String
  pub last_sequence : ℕ

abbrev pub one_of : String → List RunStatus → Bool
one_of s statuses = any (λ r. str_eq s (status_value r)) statuses

-- `_TERMINAL`, `_UNSAFE` and `_RESUMABLE`.
abbrev pub terminal_statuses : List String
terminal_statuses =
    status_value RunStatus.approved
    ∷ status_value RunStatus.rejected
    ∷ status_value RunStatus.awaiting_human
    ∷ status_value RunStatus.escalation_error
    ∷ status_value RunStatus.failed
    ∷ status_value RunStatus.succeeded
    ∷ "PERSISTENCE_ERROR"
    ∷ []

abbrev pub unsafe_statuses : List RunStatus
unsafe_statuses =
    RunStatus.executing ∷ RunStatus.sandbox_running ∷ RunStatus.evaluating
    ∷ RunStatus.escalation_building ∷ RunStatus.escalated ∷ []

abbrev pub resumable_statuses : List RunStatus
resumable_statuses =
    RunStatus.received ∷ RunStatus.context_ready ∷ RunStatus.classified ∷ RunStatus.planned
    ∷ RunStatus.proposal_ready ∷ RunStatus.evaluated ∷ RunStatus.retry_decision ∷ RunStatus.retrying
    ∷ RunStatus.policy_review ∷ []

unfoldable pub recovery_status : String → RecoveryStatus
recovery_status s =
    if any (str_eq s) terminal_statuses
    then terminal
    else if one_of s unsafe_statuses
    then requires_review
    else if one_of s resumable_statuses
    then resumable
    else requires_review

unfoldable pub assess_recovery : DurableRunState → RecoveryDecision
assess_recovery run = record {
  status = recovery_status run.workflow_status;
  workflow_status = run.workflow_status;
  last_sequence = run.last_event_sequence;
}

pub data IssueCode : Type 0 where
  state_load trailing_corrupt_event audit_read sequence_gap state_event_sequence_mismatch
        missing_artifact missing_escalation missing_eval_event :
      IssueCode

-- The loop over the events with the expected sequence number.
unfoldable pub gap_from : ℕ → List AuditEvent → Bool
gap_from n [] = false
gap_from n (e ∷ events) = if e.sequence == n then gap_from (n + 1) events else true

-- `if state.last_event_sequence and events`.
abbrev pub sequence_mismatch : ℕ → List AuditEvent → Bool
sequence_mismatch n events =
    not (n == 0) && not (is_empty events) && not (n == last_sequence events)

-- `not ref`.
abbrev pub falsy : Option String → Bool
falsy ref = elim ref [ none ↦ true | some r ↦ str_eq r "" ]

abbrev pub missing : RunDir → Option String → Bool
missing d ref = elim ref [ none ↦ false | some r ↦ not (str_eq r "") && not (is_file r d) ]

-- `_check_ref`.
abbrev pub check_ref : RunDir → Option String → List IssueCode
check_ref d ref = when (missing d ref) missing_artifact

unfoldable pub missing_refs : DurableRunState → RunDir → List IssueCode
missing_refs run d =
    check_ref d run.failure_event_ref
    ++ check_ref d run.classification_ref
    ++ check_ref d run.current_plan_ref
    ++ check_ref d run.current_proposal_ref
    ++ check_ref d run.latest_evaluation_ref
    ++ check_ref d run.latest_policy_decision_ref
    ++ check_ref d run.latest_retry_decision_ref
    ++ check_ref d run.escalation_ref
    ++ check_ref d run.reviewer_decision_ref

abbrev pub needs_evaluation : List RunStatus
needs_evaluation =
    RunStatus.evaluated ∷ RunStatus.policy_review ∷ RunStatus.approved ∷ RunStatus.rejected
    ∷ RunStatus.awaiting_human ∷ []

abbrev pub is_event : AuditEventType → AuditEvent → Bool
is_event t e = str_eq e.event_type (event_value t)

-- The issues of a loaded run, of its events and of its files.
unfoldable pub issues_of : DurableRunState → List AuditEvent → RunDir → List IssueCode
issues_of run events d =
    when (gap_from 1 events) sequence_gap
    ++ when (sequence_mismatch run.last_event_sequence events) state_event_sequence_mismatch
    ++ missing_refs run d
    ++ when
        (str_eq run.workflow_status (status_value RunStatus.awaiting_human)
          && not (is_file "escalation/summary.json" d)
          && falsy run.escalation_ref)
        missing_escalation
    ++ when
        (one_of run.workflow_status needs_evaluation
          && not (any (is_event evaluation_completed) events))
        missing_eval_event

-- Reading the events: the PersistenceError becomes an issue, and an AttributeError escapes.
abbrev pub events_read : Result (List AuditEvent × Bool) → Result (List AuditEvent × List IssueCode)
events_read (ok (events, corrupt)) = ok (events, when corrupt trailing_corrupt_event)
events_read (raised persistence_error) = ok ([], audit_read ∷ [])
events_read (raised x) = raised x

abbrev pub loaded : Option DurableRunState → RunDir → Result DurableRunState
loaded none d = load_run d
loaded (some run) d = ok run

abbrev pub issues_behind :
    DurableRunState → RunDir → Result (List AuditEvent × List IssueCode) → Result (List IssueCode)
issues_behind run d (raised x) = raised x
issues_behind run d (ok (events, found)) = ok (found ++ issues_of run events d)

-- The marker that a resumed run leaves in its log. Its metadata holds the message, a text.
abbrev pub resumed_event : Stamp → DurableRunState → ℕ → String → AuditEvent
resumed_event stamp run sequence message = record {
  schema_version = audit_schema;
  event_id = stamp.event_id;
  run_id = run.run_id;
  sequence = sequence;
  timestamp = stamp.timestamp;
  event_type = event_value run_resumed;
  actor = "orchestrator";
  component = "persistence";
  state_before = text run.workflow_status;
  state_after = text run.workflow_status;
  evidence_refs = [];
  metadata = member "recovery" (text "RESUMABLE") (member "message" (text message) end);
}

abbrev pub resume_message : String
resume_message = "Safe to resume from last durable checkpoint (no automatic side effects)."

module _ (py : Builtins) where
  abbrev pub read_for :
      Option (List AuditEvent) → RunDir → Result (List AuditEvent × List IssueCode)
  read_for none d = events_read (read_raw py d.audit)
  read_for (some events) d = ok (events, [])

  -- `verify_run_consistency`: the codes of the issues.
  unfoldable pub verify_run_consistency :
      Option DurableRunState → Option (List AuditEvent) → RunDir → Result (List IssueCode)
  verify_run_consistency state events d = elim (loaded state d) [
    | raised _ ↦ ok (state_load ∷ [])
    | ok run ↦ issues_behind run d (read_for events d)
  ]

  -- The marker and the new number in the state.
  unfoldable pub mark_resumed :
      Stamp → DurableRunState → RecoveryDecision → Exec RunDir RecoveryDecision
  mark_resumed stamp run decision = do
    last ← reads λ d. latest_sequence py d.audit
    append_event py (resumed_event stamp run (last + 1) resume_message)
    save_run (record run { last_event_sequence = last + 1 })
    return decision

  unfoldable pub resume_checked :
      Stamp → DurableRunState → List IssueCode → Exec RunDir RecoveryDecision
  resume_checked stamp run issues =
      let decision = assess_recovery run in
      if not (is_empty issues)
      then return (record decision { status = inconsistent })
      else if is_resumable decision.status
      then mark_resumed stamp run decision
      else return decision

  -- `resume_run`.
  unfoldable pub resume_run : Stamp → Exec RunDir RecoveryDecision
  resume_run stamp = do
    λ d. (ok tt, new_audit_store d)
    run ← reads load_run
    issues ← reads (verify_run_consistency (some run) none)
    resume_checked stamp run issues
