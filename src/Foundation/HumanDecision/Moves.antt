-- ===== src/Foundation/HumanDecision/Moves.antt =====
-- Which decisions are applied, in any directory (`apply_reviewer_decision` of
-- foundation/human_decision.py).
use ci_failure_orchestrator.Common.{
  String, Bool, true, false, List, [], Option, none, some, is_empty, of_is_empty, str_eq,
  if◌then◌else◌, ◌≡◌, refl, arith, ap, sym, ◌∙◌, inl, inr, ◌≢◌,
}
use ci_failure_orchestrator.Foundation.Json.{Builtins}
use ci_failure_orchestrator.Foundation.Exec.{Exception, Result, ok, raised, continue, return}
use ci_failure_orchestrator.Foundation.Durable.{Stamp, DurableEvidenceRef}
use ci_failure_orchestrator.Foundation.RunDir.{
  DurableRunState, holds, RunDir, write_json, load_run, new_audit_store,
}
use ci_failure_orchestrator.Foundation.Recovery.{IssueCode, verify_run_consistency}
use ci_failure_orchestrator.Foundation.Recovery.Statuses.{run_cases}
use ci_failure_orchestrator.Foundation.Reviewer.{
  ReviewerAction, approve, reject, request_changes, defer, parse_action, Review, Resolution,
  unresolved, unreadable_package, resolved, resolve_escalation, HumanDecisionStatus, applied,
  blocked,
}
use ci_failure_orchestrator.Foundation.HumanDecision.{
  HumanDecisionResult, awaiting, unchanged, result_status, record_decision, move_allowed,
  decide_resolved, decide_parsed, decide_loaded, apply_reviewer_decision,
}

abbrev is_applied : HumanDecisionStatus → Bool
is_applied applied = true
is_applied _ = false

-- A decision that ends the run.
abbrev pub is_final : Option ReviewerAction → Bool
is_final (some approve) = true
is_final (some reject) = true
is_final _ = false

module _ (py : Builtins) (stamp stamp2 : Stamp) (review : Review) where
  recorded_status :
      (reviewed : ReviewerAction) (escalation : String) (run : DurableRunState)
      (ref : DurableEvidenceRef) (d d' : RunDir) (result : HumanDecisionResult)
      → record_decision py stamp stamp2 review reviewed escalation run ref d ≡ (ok result, d')
      → result.status ≡ result_status reviewed
  unfolding record_decision
  recorded_status reviewed escalation run ref d d' result e = ground arith

  -- What follows the reading of the escalation.
  abbrev resolution_behind :
      ReviewerAction
      → DurableRunState
      → RunDir
      → Result Resolution
      → Result HumanDecisionResult × RunDir
  resolution_behind reviewed run d found =
      continue found (decide_resolved py stamp stamp2 review reviewed run) d

  final_of_status :
      (reviewed : ReviewerAction)
      → is_applied (result_status reviewed) ≡ true
      → is_final (some reviewed) ≡ true
  final_of_status approve a = refl
  final_of_status reject a = refl
  final_of_status request_changes a = ground arith
  final_of_status defer a = ground arith

  -- What follows the writing of the document.
  written_final :
      (reviewed : ReviewerAction) (run : DurableRunState) (d d' : RunDir)
      (result : HumanDecisionResult) (escalation : String) (allowed : Bool)
      (written : Result DurableEvidenceRef)
      → continue written
          (λ ref.
            if allowed
            then record_decision py stamp stamp2 review reviewed escalation run ref
            else return (unchanged blocked run))
          d
        ≡ (ok result, d')
      → is_applied result.status ≡ true
      → is_final (some reviewed) ≡ true
  written_final reviewed run d d' result escalation allowed (raised x) e a = ground arith
  written_final reviewed run d d' result escalation false (ok ref) e a = ground arith
  written_final reviewed run d d' result escalation true (ok ref) e a =
      final_of_status reviewed
        (ap is_applied (sym (recorded_status reviewed escalation run ref d d' result e)) ∙ a)

  resolved_final :
      (reviewed : ReviewerAction) (run : DurableRunState) (d d' : RunDir)
      (result : HumanDecisionResult) (found : Result Resolution)
      → resolution_behind reviewed run d found ≡ (ok result, d')
      → is_applied result.status ≡ true
      → is_final (some reviewed) ≡ true
  resolved_final reviewed run d d' result (raised x) e a = ground arith
  resolved_final reviewed run d d' result (ok (resolved escalation)) e a =
      let (written, d2) = write_json "reviewer" "decision.json" d in
      written_final reviewed run d2 d' result escalation (move_allowed reviewed) written e a
  resolved_final reviewed run d d' result (ok unresolved) e a = ground arith
  resolved_final reviewed run d d' result (ok unreadable_package) e a = ground arith

  -- What follows the check, by what the check answers.
  abbrev decided_behind :
      DurableRunState → RunDir → Result (List IssueCode) → Result HumanDecisionResult × RunDir
  decided_behind run d (ok issues) = decide_loaded py stamp stamp2 review run issues d
  decided_behind run d (raised x) = (raised x, d)

  parsed_final :
      (run : DurableRunState) (action : Option ReviewerAction) (d d' : RunDir)
      (result : HumanDecisionResult)
      → decide_parsed py stamp stamp2 review run action d ≡ (ok result, d')
      → is_applied result.status ≡ true
      → is_final action ≡ true
  unfolding decide_parsed
  parsed_final run none d d' result e a = ground arith
  parsed_final run (some reviewed) d d' result e a =
      resolved_final reviewed run d d' result
        (resolve_escalation py review.escalation_id d.escalation_summary) e a

  loaded_awaiting :
      (run : DurableRunState) (issues : List IssueCode) (d d' : RunDir)
      (result : HumanDecisionResult)
      → decide_loaded py stamp stamp2 review run issues d ≡ (ok result, d')
      → is_applied result.status ≡ true
      → (is_empty issues ≡ true)
        × (str_eq run.workflow_status awaiting ≡ true)
        × (decide_parsed py stamp stamp2 review run (parse_action review.action) d
            ≡ (ok result, d'))
  unfolding decide_loaded
  loaded_awaiting run issues d d' result e a = (ground arith, ground arith, ground arith)

  behind-awaiting :
      (run : DurableRunState) (d d' : RunDir) (result : HumanDecisionResult)
      (checked : Result (List IssueCode))
      → decided_behind run d checked ≡ (ok result, d')
      → is_applied result.status ≡ true
      → (checked ≡ ok [])
        × (str_eq run.workflow_status awaiting ≡ true)
        × (is_final (parse_action review.action) ≡ true)
  behind-awaiting run d d' result (raised x) e a = (ground arith, ground arith, ground arith)
  behind-awaiting run d d' result (ok issues) e a =
      let (clean, waits, goes_on) = loaded_awaiting run issues d d' result e a in
      (
        ap (λ found. ok found) (of_is_empty issues clean),
        waits,
        parsed_final run (parse_action review.action) d d' result goes_on a,
      )

  apply-loaded :
      (run : DurableRunState) (d : RunDir)
      → d.state ≡ holds run
      → apply_reviewer_decision py stamp stamp2 review d
        ≡ decided_behind run
            (new_audit_store d)
            (verify_run_consistency py (some run) none (new_audit_store d))
  unfolding apply_reviewer_decision load_run
  apply-loaded run d held = ground arith

  apply_not_loaded :
      (d d' : RunDir) (x : Exception) (result : HumanDecisionResult)
      → load_run d ≡ raised x
      → apply_reviewer_decision py stamp stamp2 review d ≡ (ok result, d')
      → is_applied result.status ≢ true
  unfolding apply_reviewer_decision load_run
  apply_not_loaded d d' x result l e a = ground arith

  -- Whatever the directory holds and whatever writes fail: a decision that is reported as applied was
  -- about a run that was loaded from its state, that awaited a reviewer, and whose log and files
  -- passed the check, and its action is to approve or to reject.
  pub applied_only_if_awaiting :
      (d d' : RunDir) (result : HumanDecisionResult)
      → apply_reviewer_decision py stamp stamp2 review d ≡ (ok result, d')
      → result.status ≡ applied
      → (run : DurableRunState) × (d.state ≡ holds run)
        × (verify_run_consistency py (some run) none (new_audit_store d) ≡ ok [])
        × (str_eq run.workflow_status awaiting ≡ true)
        × (is_final (parse_action review.action) ≡ true)
  applied_only_if_awaiting d d' result e a =
      let is = ap is_applied a in
      elim (run_cases d) [
        | inl (x, l) ↦ absurd (apply_not_loaded d d' x result l e is)
        | inr (run, held) ↦
            let parts =
              behind-awaiting run (new_audit_store d) d' result
                (verify_run_consistency py (some run) none (new_audit_store d))
                (sym (apply-loaded run d held) ∙ e) is in
            (run, held, parts.0, parts.1, parts.2)
      ]
