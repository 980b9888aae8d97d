-- ===== src/Examples/Recovered.antt =====
-- The theorems on the journal, on recovery and on human decisions at concrete runs.
use ci_failure_orchestrator.Common.{
  String, true, false, List, [], ◌∷◌, ◌++◌, none, some, ◌≡◌, refl, arith, inl, str_eq, eq_iff, same,
  is_space, is_blank,
}
use ci_failure_orchestrator.Foundation.Json.{text, end, member, object, get, truthy, or_else, str}
use ci_failure_orchestrator.Foundation.Exec.{persistence_error, ok, raised}
use ci_failure_orchestrator.Foundation.Durable.{AuditEvent, Stamp, human_approved}
use ci_failure_orchestrator.Foundation.AuditLog.{Write, kept, lost}
use ci_failure_orchestrator.Foundation.AuditLog.Holding.{ids}
use ci_failure_orchestrator.Foundation.RunDir.{
  DurableRunState, RunDir, SummaryFile, summary, no_summary, holds,
}
use ci_failure_orchestrator.Foundation.Journal.{current_plan, new_run, Emission, Checkpoint}
use ci_failure_orchestrator.Foundation.Journal.Counts.{InStep, at_run}
use ci_failure_orchestrator.Foundation.Journal.Steps.{
  Call, emits, checkpoints, after_calls, journal-InStep,
}
use ci_failure_orchestrator.Foundation.Recovery.{
  assess_recovery, verify_run_consistency, resume_run, issues_of, gap_from, missing_refs,
  recovery_status,
}
use ci_failure_orchestrator.Foundation.Recovery.Stored.{stored_run, IsClean}
use ci_failure_orchestrator.Foundation.Recovery.Resume.{
  marker, advanced, refusal, resumed_run-IsClean, interrupted_resume_blocks,
}
use ci_failure_orchestrator.Foundation.Recovery.Statuses.{is_complete, resumed_only_if_clean}
use ci_failure_orchestrator.Foundation.Reviewer.{
  approve, Review, blocked, resolved, parse_action, resolve_escalation, normal_action, strip_start,
  strip_end,
}
use ci_failure_orchestrator.Foundation.HumanDecision.{
  awaiting, unchanged, decided_result, apply_reviewer_decision,
}
use ci_failure_orchestrator.Foundation.HumanDecision.Final.{after, decision_is_final}
use ci_failure_orchestrator.Foundation.HumanDecision.Moves.{is_final, applied_only_if_awaiting}
use ci_failure_orchestrator.Foundation.HumanDecision.Recorded.{decided_events, decided_run}
use ci_failure_orchestrator.Examples.Durable.{py, first}

abbrev stamp : Stamp
stamp = record { event_id = "evt-7"; timestamp = "2026-01-02" }

abbrev stamp2 : Stamp
stamp2 = record { event_id = "evt-8"; timestamp = "2026-01-02" }

-- A run of one event in a given status.
abbrev run_in : String → DurableRunState
run_in status = record (new_run "run-1" status) { last_event_sequence = 1 }

abbrev evaluated_run : DurableRunState
evaluated_run = run_in "EVALUATED"

abbrev history : List AuditEvent
history = first ∷ []

evaluated-IsClean :
    (w : List Write)
    → IsClean evaluated_run history (stored_run evaluated_run history [] no_summary [] w)
unfolding issues_of gap_from missing_refs
evaluated-IsClean w = refl

evaluated_is_resumable : recovery_status "EVALUATED" ≡ recovery_status "PLANNED"
unfolding recovery_status
evaluated_is_resumable = refl

resumed_run-IsClean_example :
    let more = history ++ marker stamp evaluated_run history ∷ [] in
    let resumed = stored_run (advanced evaluated_run history) more (ids more) no_summary [] [] in
    (resume_run py stamp (stored_run evaluated_run history [] no_summary [] [])
      ≡ (ok (assess_recovery evaluated_run), resumed))
    × (verify_run_consistency py none none resumed ≡ ok [])
unfolding recovery_status
resumed_run-IsClean_example =
    resumed_run-IsClean py stamp evaluated_run history [] no_summary [] refl refl
      (evaluated-IsClean []) refl

interrupted_resume_blocks_example :
    let more = history ++ marker stamp evaluated_run history ∷ [] in
    (resume_run py stamp (stored_run evaluated_run history [] no_summary [] (kept ∷ lost ∷ []))
      ≡ (raised persistence_error, stored_run evaluated_run more (ids more) no_summary [] []))
    × (resume_run py stamp2 (stored_run evaluated_run more (ids more) no_summary [] [])
        ≡ (ok (refusal evaluated_run), stored_run evaluated_run more [] no_summary [] []))
unfolding recovery_status
interrupted_resume_blocks_example =
    interrupted_resume_blocks py stamp stamp2 evaluated_run history [] no_summary [] [] refl refl
      (evaluated-IsClean (kept ∷ lost ∷ [])) refl (λ e. ground arith) refl

abbrev resumed_dir : RunDir
resumed_dir =
    let more = history ++ marker stamp evaluated_run history ∷ [] in
    stored_run (advanced evaluated_run history) more (ids more) no_summary [] []

resumed_once :
    resume_run py stamp (stored_run evaluated_run history [] no_summary [] [])
    ≡ (ok (assess_recovery evaluated_run), resumed_dir)
unfolding recovery_status
resumed_once =
    (resumed_run-IsClean py stamp evaluated_run history [] no_summary [] refl refl
      (evaluated-IsClean []) refl).0

resumed_only_if_clean_example :
    (run : DurableRunState) × (holds evaluated_run ≡ holds run)
    × (verify_run_consistency py
          (some run)
          none
          (stored_run evaluated_run history [] no_summary [] [])
        ≡ ok [])
    × (is_complete run.workflow_status ≡ false)
unfolding assess_recovery recovery_status
resumed_only_if_clean_example =
    resumed_only_if_clean py stamp (stored_run evaluated_run history [] no_summary [] [])
      resumed_dir (assess_recovery evaluated_run) resumed_once refl

-- A run that awaits a reviewer, with its escalation package.
abbrev waiting_run : DurableRunState
waiting_run = run_in awaiting

abbrev escalation : SummaryFile
escalation = summary (object (member "escalation_id" (text "esc-1") end))

abbrev summary_files : List String
summary_files = "escalation/summary.json" ∷ []

abbrev approval : Review
approval = record {
  action = " approve ";
  reviewer_id = "reviewer-1";
  comment = "looks right";
  escalation_id = none;
}

waiting-IsClean :
    IsClean waiting_run history (stored_run waiting_run history [] escalation summary_files [])
unfolding issues_of gap_from missing_refs
waiting-IsClean = refl

approval_is_approve : parse_action approval.action ≡ some approve
unfolding parse_action normal_action strip_start strip_end same is_space is_blank
approval_is_approve = refl

approval_is_resolved :
    resolve_escalation py approval.escalation_id escalation ≡ ok (resolved "esc-1")
unfolding resolve_escalation get str or_else truthy
approval_is_resolved = refl

abbrev approved_events : List AuditEvent
approved_events =
    decided_events stamp stamp2 approval approve "esc-1" waiting_run history human_approved

abbrev approved_run : DurableRunState
approved_run = decided_run stamp stamp2 approval approve "esc-1" waiting_run history

abbrev approved_dir : List String → RunDir
approved_dir =
    after stamp stamp2 approval approve "esc-1" waiting_run history escalation summary_files
      human_approved

decision_is_final_example :
    (apply_reviewer_decision py stamp stamp2 approval
        (stored_run waiting_run history [] escalation summary_files [])
      ≡ (ok (decided_result waiting_run approve 3), approved_dir (ids approved_events)))
    × (verify_run_consistency py none none (approved_dir (ids approved_events)) ≡ ok [])
    × (apply_reviewer_decision py stamp stamp2 approval (approved_dir (ids approved_events))
        ≡ (ok (unchanged blocked approved_run), approved_dir []))
decision_is_final_example =
    decision_is_final stamp stamp2 approval approve "esc-1" waiting_run history escalation
      summary_files human_approved py [] stamp stamp2 approval refl refl refl
      (λ e. ground (arith, eq_iff "evt-8" "evt-7", e)) waiting-IsClean refl approval_is_approve refl
      approval_is_resolved

approved_once :
    apply_reviewer_decision py stamp stamp2 approval
      (stored_run waiting_run history [] escalation summary_files [])
    ≡ (ok (decided_result waiting_run approve 3), approved_dir (ids approved_events))
approved_once =
    (decision_is_final stamp stamp2 approval approve "esc-1" waiting_run history escalation
      summary_files human_approved py [] stamp stamp2 approval refl refl refl
      (λ e. ground (arith, eq_iff "evt-8" "evt-7", e)) waiting-IsClean refl approval_is_approve refl
      approval_is_resolved).0

applied_only_if_awaiting_example :
    (run : DurableRunState) × (holds waiting_run ≡ holds run)
    × (verify_run_consistency py
          (some run)
          none
          (stored_run waiting_run history [] escalation summary_files [])
        ≡ ok [])
    × (str_eq run.workflow_status awaiting ≡ true)
    × (is_final (parse_action approval.action) ≡ true)
applied_only_if_awaiting_example =
    applied_only_if_awaiting py stamp stamp2 approval
      (stored_run waiting_run history [] escalation summary_files [])
      (approved_dir (ids approved_events)) (decided_result waiting_run approve 3) approved_once refl

abbrev note : Emission
note = record {
  event_type = "TOOL_CALLED";
  state_before = none;
  state_after = none;
  evidence_refs = [];
  metadata = end;
  component = "foundation";
}

abbrev in_attempt : Checkpoint
in_attempt = record {
  workflow_status = some "EXECUTING";
  technical_status = none;
  policy_outcome = none;
  current_attempt = some 1;
  stop_reason = none;
  refs = (current_plan, some "plans/plan.json") ∷ [];
}

abbrev calls : List Call
calls = emits stamp note ∷ checkpoints in_attempt ∷ emits stamp note ∷ emits stamp2 note ∷ []

abbrev journal_dir : RunDir
journal_dir = stored_run evaluated_run history [] no_summary [] (kept ∷ lost ∷ kept ∷ [])

journal-InStep_example :
    (run : DurableRunState) × (events : List AuditEvent) × (d : RunDir) × (after_calls py calls
        (at_run evaluated_run "orchestrator" journal_dir)
      ≡ at_run run "orchestrator" d)
    × InStep run events d
journal-InStep_example =
    journal-InStep py calls evaluated_run history "orchestrator" journal_dir
      (record { log = inl refl; in_order = refl; different = refl; counts = refl; atomic = refl })
