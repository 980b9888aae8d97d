-- ===== src/Foundation/HumanDecision/Final.antt =====
-- A decision that approves or rejects a run (foundation/human_decision.py): the run is consistent behind
-- it, and no other decision follows.
use ci_failure_orchestrator.Common.{
  ◌+◌, String, Bool, true, false, List, [], ◌∷◌, ◌++◌, none, some, any-append, is_empty, length,
  and-both, str_eq, ◌≡◌, refl, ap, sym, ◌∙◌, arith, eq_iff, ◌≢◌,
}
use ci_failure_orchestrator.Lifecycle
use ci_failure_orchestrator.Foundation.Json.{Builtins}
use ci_failure_orchestrator.Foundation.Exec.{ok}
use ci_failure_orchestrator.Foundation.StateMachine
use ci_failure_orchestrator.Foundation.StateMachine.{RunStatus, status_value}
use ci_failure_orchestrator.Foundation.Durable.{
  AuditEvent, AuditEventType, evaluation_completed, Stamp,
}
use ci_failure_orchestrator.Foundation.AuditLog.Numbering.{numbered, admit-numbered, has_id}
use ci_failure_orchestrator.Foundation.AuditLog.Holding.{ids}
use ci_failure_orchestrator.Foundation.RunDir.{DurableRunState, RunDir, SummaryFile, load_run}
use ci_failure_orchestrator.Foundation.Recovery.{
  is_event, verify_run_consistency, missing_refs, one_of, needs_evaluation,
}
use ci_failure_orchestrator.Foundation.Recovery.Stored.{
  stored_run, IsClean, verify-stored, verify-clean, clean_log, counted, counted-new, rest_clean,
  lacks_escalation, evaluated,
}
use ci_failure_orchestrator.Foundation.Reviewer.{
  ReviewerAction, approve, reject, request_changes, defer, parse_action, Review, resolved,
  resolve_escalation, blocked,
}
use ci_failure_orchestrator.Foundation.HumanDecision.{
  awaiting, unchanged, next_status, terminal_event, move_allowed, decided_result, record_decision,
  decide_parsed, decide_loaded, apply_reviewer_decision,
}
use ci_failure_orchestrator.Foundation.HumanDecision.Files.{with_file, decided-refs}
use ci_failure_orchestrator.Foundation.HumanDecision.Recorded.{
  decision_path, decision_ref, write_json-stored, first_event, second_event, decided_events,
  decided_run, numbered_first, admit_second, record_decision-stored,
}

not_awaiting :
    (reviewed : ReviewerAction) (t : AuditEventType)
    → terminal_event reviewed ≡ some t
    → str_eq (status_value (next_status reviewed)) awaiting ≡ false
not_awaiting approve t e = refl
not_awaiting reject t e = refl
not_awaiting request_changes t e = ground arith
not_awaiting defer t e = ground arith

move_allowed_always : (reviewed : ReviewerAction) → move_allowed reviewed ≡ true
unfolding StateMachine.transition StateMachine.allowed StateMachine.allowed_transitions
    Lifecycle.transition
move_allowed_always approve = refl
move_allowed_always reject = refl
move_allowed_always request_changes = refl
move_allowed_always defer = refl

module _ (py : Builtins) where
  -- A decision on a run whose check finds nothing, and that awaits a reviewer.
  apply-accepted :
      (stamp stamp2 : Stamp) (review : Review) (reviewed : ReviewerAction) (escalation : String)
      (run : DurableRunState) (events : List AuditEvent) (seen : List String) (s : SummaryFile)
      (files : List String)
      → IsClean run events (stored_run run events [] s files [])
      → str_eq run.workflow_status awaiting ≡ true
      → parse_action review.action ≡ some reviewed
      → resolve_escalation py review.escalation_id s ≡ ok (resolved escalation)
      → apply_reviewer_decision py stamp stamp2 review (stored_run run events seen s files [])
        ≡ record_decision py stamp stamp2 review reviewed escalation run decision_ref
            (stored_run run events [] s (files ++ decision_path ∷ []) [])
  unfolding apply_reviewer_decision load_run decide_loaded decide_parsed
  apply-accepted stamp stamp2 review reviewed escalation run events seen s files c w p q =
      rw (verify-stored py run events [] s files []) (
        rw c (
          rw w (
            rw p (
              rw q (
                rw (write_json-stored run events [] s files)
                  (rw (move_allowed_always reviewed) refl))))))

evaluated-more :
    (events : List AuditEvent) (e : AuditEvent)
    → evaluated events ≡ true
    → evaluated (events ++ e ∷ []) ≡ true
evaluated-more events e h =
    ground (arith, any-append (is_event evaluation_completed) events (e ∷ []))

-- A run that awaits a reviewer and passes the check has its evaluation in the log.
evaluated_of-IsClean :
    (run : DurableRunState) (events : List AuditEvent) (d : RunDir)
    → numbered 1 events ≡ true
    → IsClean run events d
    → str_eq run.workflow_status awaiting ≡ true
    → (is_empty (missing_refs run d) ≡ true) × (evaluated events ≡ true)
evaluated_of-IsClean run events d h c w =
    let before = sym (clean_log run events d h) ∙ c in
    let rest = and-both (counted run.last_event_sequence events) before in
    let needed : one_of run.workflow_status needs_evaluation ≡ true =
      ap (λ x. one_of x needs_evaluation) ((eq_iff run.workflow_status awaiting).0 w) in
    rest_parts (is_empty (missing_refs run d)) (lacks_escalation run d) (evaluated events) (
      ap
        (λ b.
          rest_clean (is_empty (missing_refs run d)) (lacks_escalation run d) b (evaluated events))
        (sym needed)
      ∙ rest.1)
  where
    rest_parts :
        (refs lacks done : Bool)
        → rest_clean refs lacks true done ≡ true
        → (refs ≡ true) × (done ≡ true)
    rest_parts refs lacks done r = (ground arith, ground arith)

module _ (stamp stamp2 : Stamp) (review : Review) (reviewed : ReviewerAction) (escalation : String)
    (run : DurableRunState) (events : List AuditEvent) (s : SummaryFile) (files : List String)
    (t : AuditEventType) where
  abbrev once : List AuditEvent
  once = events ++ first_event stamp stamp2 review reviewed escalation run events ∷ []

  abbrev final_events : List AuditEvent
  final_events = decided_events stamp stamp2 review reviewed escalation run events t

  abbrev final_run : DurableRunState
  final_run = decided_run stamp stamp2 review reviewed escalation run events

  -- The run behind the decision.
  abbrev pub after : List String → RunDir
  after seen = stored_run final_run final_events seen s (files ++ decision_path ∷ []) []

  missing-decided :
      (seen : List String)
      → missing_refs final_run (after seen)
        ≡ missing_refs
            (record run { reviewer_decision_ref = some decision_path })
            (with_file decision_path (stored_run run events [] s files []))
  unfolding missing_refs
  missing-decided seen = refl

  decided-IsClean :
      (seen : List String)
      → numbered 1 events ≡ true
      → numbered 1 final_events ≡ true
      → IsClean run events (stored_run run events [] s files [])
      → str_eq run.workflow_status awaiting ≡ true
      → terminal_event reviewed ≡ some t
      → IsClean final_run final_events (after seen)
  decided-IsClean seen h h' c w terminal =
      let second = second_event stamp stamp2 review reviewed escalation run events t in
      let before = evaluated_of-IsClean run events (stored_run run events [] s files []) h c w in
      clean_log final_run final_events (after seen) h'
      ∙ rw (counted-new once second) (
          rw (missing-decided seen) (
            rw (decided-refs decision_path run (stored_run run events [] s files []) before.0) (
              rw (not_awaiting reviewed t terminal) (
                rw
                  (evaluated-more once second (
                    evaluated-more events
                      (first_event stamp stamp2 review reviewed escalation run events) before.1))
                  (ground arith)))))

  -- A decision on a run that passes the check and does not await a reviewer.
  apply-refused :
      (py : Builtins) (seen : List String) (later later2 : Stamp) (second_review : Review)
      → IsClean final_run final_events (after [])
      → terminal_event reviewed ≡ some t
      → apply_reviewer_decision py later later2 second_review (after seen)
        ≡ (ok (unchanged blocked final_run), after [])
  unfolding apply_reviewer_decision load_run decide_loaded
  apply-refused py seen later later2 second_review c terminal =
      rw (verify-stored py final_run final_events [] s (files ++ decision_path ∷ []) [])
        (rw c (rw (not_awaiting reviewed t terminal) refl))

  -- A run that awaits a reviewer, with a numbered log, and whose state, log and files agree; an action
  -- that approves or rejects; an escalation that is resolved; two new identifiers, and no write that
  -- fails. The decision is applied: it writes its document, logs the decision and the approval or
  -- rejection with the next two numbers, and sets the status to APPROVED or REJECTED; the run still
  -- passes the check, and every later decision, of whatever reviewer, is BLOCKED and changes nothing.
  pub decision_is_final :
      (py : Builtins) (seen : List String) (later later2 : Stamp) (second_review : Review)
      → numbered 1 events ≡ true
      → has_id stamp.event_id events ≡ false
      → has_id stamp2.event_id events ≡ false
      → stamp2.event_id ≢ stamp.event_id
      → IsClean run events (stored_run run events [] s files [])
      → str_eq run.workflow_status awaiting ≡ true
      → parse_action review.action ≡ some reviewed
      → terminal_event reviewed ≡ some t
      → resolve_escalation py review.escalation_id s ≡ ok (resolved escalation)
      → (apply_reviewer_decision py stamp stamp2 review (stored_run run events seen s files [])
          ≡ (ok (decided_result run reviewed (length once + 1)), after (ids final_events)))
        × (verify_run_consistency py none none (after (ids final_events)) ≡ ok [])
        × (apply_reviewer_decision py later later2 second_review (after (ids final_events))
            ≡ (ok (unchanged blocked final_run), after []))
  decision_is_final py seen later later2 second_review h fresh fresh2 differ c w p terminal q =
      let numbered_final =
        admit-numbered (second_event stamp stamp2 review reviewed escalation run events t) once
          (admit_second stamp stamp2 review reviewed escalation run events h fresh fresh2 differ t)
          (numbered_first stamp stamp2 review reviewed escalation run events h fresh fresh2
            differ) in
      let clean = λ (seen' : List String). decided-IsClean seen' h numbered_final c w terminal in
      (
        apply-accepted py stamp stamp2 review reviewed escalation run events seen s files c w p q
            ∙ record_decision-stored stamp stamp2 review reviewed escalation run events h fresh
                fresh2 differ py s (files ++ decision_path ∷ []) t terminal,
        verify-clean py final_run final_events (ids final_events) s (files ++ decision_path ∷ []) []
            (clean (ids final_events)),
        apply-refused py (ids final_events) later later2 second_review (clean []) terminal,
      )
