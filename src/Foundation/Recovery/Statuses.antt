-- ===== src/Foundation/Recovery/Statuses.antt =====
-- Which runs are resumed, in any directory (foundation/recovery.py).
use ci_failure_orchestrator.Common.{
  String, str_eq, any, Bool, ◌∷◌, true, false, List, [], none, some, is_empty, of_is_empty, ◌≡◌,
  refl, arith, ap, sym, ◌∙◌, inl, inr, ◌⊎◌, ◌≢◌,
}
use ci_failure_orchestrator.Foundation.Json.{Builtins}
use ci_failure_orchestrator.Foundation.Exec.{Exception, file_not_found, Result, ok, raised}
use ci_failure_orchestrator.Foundation.Durable.{Stamp}
use ci_failure_orchestrator.Foundation.StateMachine
use ci_failure_orchestrator.Foundation.StateMachine.{RunStatus, status_value}
use ci_failure_orchestrator.Foundation.RunDir.{
  DurableRunState, StateFile, no_state, unreadable, holds, RunDir, load_run, new_audit_store,
}
use ci_failure_orchestrator.Foundation.Recovery.{
  IssueCode, RecoveryDecision, terminal, is_resumable, recovery_status, assess_recovery,
  verify_run_consistency, resume_checked, resume_run,
}

-- Automated execution is complete in the status, by its text.
abbrev pub is_complete : String → Bool
is_complete s = any (str_eq s) (
    "APPROVED" ∷ "REJECTED" ∷ "AWAITING_HUMAN" ∷ "ESCALATION_ERROR" ∷ "FAILED" ∷ "SUCCEEDED"
    ∷ "PERSISTENCE_ERROR" ∷ [])

-- A status of the state machine is assessed as terminal exactly if its machine calls it terminal.
recovery_status-terminal :
    (s : RunStatus)
    → (elim (recovery_status (status_value s)) [ terminal ↦ true | _ ↦ false ])
      ≡ StateMachine.terminal s
unfolding recovery_status StateMachine.terminal
recovery_status-terminal RunStatus.received = refl
recovery_status-terminal RunStatus.context_ready = refl
recovery_status-terminal RunStatus.classified = refl
recovery_status-terminal RunStatus.planned = refl
recovery_status-terminal RunStatus.executing = refl
recovery_status-terminal RunStatus.proposal_ready = refl
recovery_status-terminal RunStatus.sandbox_running = refl
recovery_status-terminal RunStatus.evaluating = refl
recovery_status-terminal RunStatus.evaluated = refl
recovery_status-terminal RunStatus.retry_decision = refl
recovery_status-terminal RunStatus.retrying = refl
recovery_status-terminal RunStatus.policy_review = refl
recovery_status-terminal RunStatus.approved = refl
recovery_status-terminal RunStatus.rejected = refl
recovery_status-terminal RunStatus.escalated = refl
recovery_status-terminal RunStatus.escalation_building = refl
recovery_status-terminal RunStatus.awaiting_human = refl
recovery_status-terminal RunStatus.escalation_error = refl
recovery_status-terminal RunStatus.succeeded = refl
recovery_status-terminal RunStatus.failed = refl

recovery_status_not_terminal :
    (s : String) → is_resumable (recovery_status s) ≡ true → is_complete s ≡ false
unfolding recovery_status
recovery_status_not_terminal s h = ground arith

pub run_cases :
    (d : RunDir)
    → ((x : Exception) × (load_run d ≡ raised x))
      ⊎ ((run : DurableRunState) × (d.state ≡ holds run))
unfolding load_run
run_cases d = by_state d.state refl
  where
    by_state :
        (st : StateFile)
        → d.state ≡ st
        → ((x : Exception) × (load_run d ≡ raised x))
          ⊎ ((run : DurableRunState) × (d.state ≡ holds run))
    by_state no_state e = inl (file_not_found, rw e refl)
    by_state (unreadable x) e = inl (x, rw e refl)
    by_state (holds run) e = inr (run, e)

module _ (py : Builtins) where
  abbrev resume_behind :
      Stamp → DurableRunState → RunDir → Result (List IssueCode) → Result RecoveryDecision × RunDir
  resume_behind stamp run d (ok issues) = resume_checked py stamp run issues d
  resume_behind stamp run d (raised x) = (raised x, d)

  checked_decision :
      (stamp : Stamp) (run : DurableRunState) (issues : List IssueCode) (d d' : RunDir)
      (decision : RecoveryDecision)
      → resume_checked py stamp run issues d ≡ (ok decision, d')
      → is_resumable decision.status ≡ true
      → (is_empty issues ≡ true) × (is_resumable (recovery_status run.workflow_status) ≡ true)
  unfolding resume_checked assess_recovery
  checked_decision stamp run issues d d' decision e r = (ground arith, ground arith)

  -- A run in the directory, and what the check answers, decide how resuming goes on.
  resume_run-loaded :
      (stamp : Stamp) (run : DurableRunState) (d : RunDir)
      → d.state ≡ holds run
      → resume_run py stamp d
        ≡ resume_behind stamp run
            (new_audit_store d)
            (verify_run_consistency py (some run) none (new_audit_store d))
  unfolding resume_run load_run
  resume_run-loaded stamp run d held = ground arith

  resume_run-raised :
      (stamp : Stamp) (d : RunDir) (x : Exception)
      → load_run d ≡ raised x
      → resume_run py stamp d ≡ (raised x, new_audit_store d)
  unfolding resume_run load_run
  resume_run-raised stamp d x e = ground arith

  behind-clean :
      (stamp : Stamp) (run : DurableRunState) (d d' : RunDir) (decision : RecoveryDecision)
      (checked : Result (List IssueCode))
      → resume_behind stamp run d checked ≡ (ok decision, d')
      → is_resumable decision.status ≡ true
      → (checked ≡ ok []) × (is_complete run.workflow_status ≡ false)
  behind-clean stamp run d d' decision (raised x) e r = (ground arith, ground arith)
  behind-clean stamp run d d' decision (ok issues) e r =
      let (clean, open') = checked_decision stamp run issues d d' decision e r in
      (
        ap (λ found. ok found) (of_is_empty issues clean),
        recovery_status_not_terminal run.workflow_status open',
      )

  raised_not_ok :
      (stamp : Stamp) (d d' : RunDir) (decision : RecoveryDecision) (x : Exception)
      → load_run d ≡ raised x
      → resume_run py stamp d ≢ (ok decision, d')
  raised_not_ok stamp d d' decision x l e = ground (arith, resume_run-raised stamp d x l)

  -- Whatever the directory holds and whatever writes fail: a run that is reported as resumed was loaded
  -- from its state, the check of its log and files found nothing, and its status is not one of those
  -- in which automated execution is complete, PERSISTENCE_ERROR among them.
  pub resumed_only_if_clean :
      (stamp : Stamp) (d d' : RunDir) (decision : RecoveryDecision)
      → resume_run py stamp d ≡ (ok decision, d')
      → is_resumable decision.status ≡ true
      → (run : DurableRunState) × (d.state ≡ holds run)
        × (verify_run_consistency py (some run) none (new_audit_store d) ≡ ok [])
        × (is_complete run.workflow_status ≡ false)
  resumed_only_if_clean stamp d d' decision e r = elim (run_cases d) [
    | inl (x, l) ↦ absurd (raised_not_ok stamp d d' decision x l e)
    | inr (run, held) ↦
        let (clean, open') =
          behind-clean stamp run (new_audit_store d) d' decision
            (verify_run_consistency py (some run) none (new_audit_store d))
            (sym (resume_run-loaded stamp run d held) ∙ e) r in
        (run, held, clean, open')
  ]
