-- ===== src/Foundation/Recovery/Stored.antt =====
-- A stored run whose log holds given events: what verify_run_consistency, append and save_run make of
-- it (foundation/recovery.py, foundation/durable.py).
use ci_failure_orchestrator.Common.{
  ℕ, ◌+◌, String, Bool, true, false, not, ◌&&◌, ◌||◌, List, [], ◌∷◌, ◌++◌, map, none, some, any,
  any-append, is_empty, length, length-append, is_empty-append, ◌≢◌, str_eq, ◌==◌, ◌≡◌, refl, ◌∙◌,
  arith, emptiness, of_is_empty, is_empty-map, ==_iff,
}
use ci_failure_orchestrator.Foundation.Json.{Builtins}
use ci_failure_orchestrator.Foundation.Exec.{ok}
use ci_failure_orchestrator.Foundation.Durable.{AuditEvent, evaluation_completed}
use ci_failure_orchestrator.Foundation.Durable.Roundtrip.{filled_event}
use ci_failure_orchestrator.Foundation.AuditLog.{latest_sequence, Write, kept, append}
use ci_failure_orchestrator.Foundation.AuditLog.Numbering.{numbered, admit, last_sequence-numbered}
use ci_failure_orchestrator.Foundation.AuditLog.Holding.{
  holding, ids, read_raw-holding, Represents, append_admits, write-kept, latest-holding,
  filled-last,
}
use ci_failure_orchestrator.Foundation.StateMachine.{RunStatus, status_value}
use ci_failure_orchestrator.Foundation.RunDir.{
  DurableRunState, holds, RunDir, SummaryFile, save_run, atomic_write, append_event, load_run,
  is_file,
}
use ci_failure_orchestrator.Foundation.Recovery.{
  issues_of, gap_from, sequence_mismatch, missing_refs, verify_run_consistency, is_event, falsy,
  one_of, needs_evaluation,
}

-- The run's state, its log without damage, and the other files.
abbrev pub stored_run :
    DurableRunState
    → List AuditEvent
    → List String
    → SummaryFile
    → List String
    → List Write
    → RunDir
stored_run run events seen s files writes = record {
  state = holds run;
  audit = holding events seen;
  escalation_summary = s;
  files = files;
  writes = writes;
}

-- The check finds nothing in the run.
abbrev pub IsClean : DurableRunState → List AuditEvent → RunDir → Type 0
IsClean run events d = is_empty (issues_of run (map filled_event events) d) ≡ true

gap_from-numbered :
    (n : ℕ) (events : List AuditEvent)
    → gap_from n (map filled_event events) ≡ not (numbered n events)
unfolding gap_from
gap_from-numbered n [] = refl
gap_from-numbered n (e ∷ events) = ground (arith, gap_from-numbered (n + 1) events)

-- The issues of a run are none exactly if each check finds nothing.
clean_iff :
    (run : DurableRunState) (events : List AuditEvent) (d : RunDir)
    → is_empty (issues_of run events d) ≡ (
        not (gap_from 1 events)
        && not (sequence_mismatch run.last_event_sequence events)
        && is_empty (missing_refs run d)
        && not (
            str_eq run.workflow_status (status_value RunStatus.awaiting_human)
            && not (is_file "escalation/summary.json" d)
            && falsy run.escalation_ref)
        && not (
            one_of run.workflow_status needs_evaluation
            && not (any (is_event evaluation_completed) events)))
unfolding issues_of
clean_iff run events d = simp emptiness refl

module _ (py : Builtins) where
  pub verify-stored :
      (run : DurableRunState) (events : List AuditEvent) (seen : List String) (s : SummaryFile)
      (files : List String) (writes : List Write)
      → verify_run_consistency py (some run) none (stored_run run events seen s files writes)
        ≡ ok (issues_of run (map filled_event events) (stored_run run events seen s files writes))
  unfolding verify_run_consistency
  verify-stored run events seen s files writes = rw (read_raw-holding py events seen) refl

  -- The same check on a run that is read from its file.
  pub verify-clean :
      (run : DurableRunState) (events : List AuditEvent) (seen : List String) (s : SummaryFile)
      (files : List String) (writes : List Write)
      → IsClean run events (stored_run run events seen s files writes)
      → verify_run_consistency py none none (stored_run run events seen s files writes) ≡ ok []
  unfolding verify_run_consistency load_run
  verify-clean run events seen s files writes c = rw (read_raw-holding py events seen) (
      rw
        (of_is_empty
          (issues_of run (map filled_event events) (stored_run run events seen s files writes)) c)
        refl)

  append-holding :
      (e : AuditEvent) (events : List AuditEvent) (seen : List String)
      → Represents (holding events seen) events
      → numbered 1 events ≡ true
      → admit e events ≡ ok tt
      → append py e kept (holding events seen)
        ≡ (ok tt, holding (events ++ e ∷ []) (ids (events ++ e ∷ [])))
  append-holding e events seen r h a =
      append_admits py e kept (holding events seen) events r h ∙ (rw a (write-kept py e events))

  module _ (e : AuditEvent) (run : DurableRunState) (events : List AuditEvent) (seen : List String)
      (s : SummaryFile) (files : List String) (r : Represents (holding events seen) events)
      (h : numbered 1 events ≡ true) (a : admit e events ≡ ok tt) where
    -- An event that the log admits, with a write that keeps it.
    pub append_event-stored :
        append_event py e (stored_run run events seen s files [])
        ≡ (ok tt, stored_run run (events ++ e ∷ []) (ids (events ++ e ∷ [])) s files [])
    unfolding append_event
    append_event-stored = rw (append-holding e events seen r h a) refl

    pub append_event-kept :
        (ws : List Write)
        → append_event py e (stored_run run events seen s files (kept ∷ ws))
          ≡ (ok tt, stored_run run (events ++ e ∷ []) (ids (events ++ e ∷ [])) s files ws)
    unfolding append_event
    append_event-kept ws = rw (append-holding e events seen r h a) refl

  pub latest-stored :
      (events : List AuditEvent) (seen : List String)
      → numbered 1 events ≡ true
      → latest_sequence py (holding events seen) ≡ ok (length events)
  latest-stored = latest-holding py

-- A state that is saved over the run.
pub save_run-stored :
    (new run : DurableRunState) (events : List AuditEvent) (seen : List String) (s : SummaryFile)
    (files : List String)
    → save_run new (stored_run run events seen s files [])
      ≡ (ok tt, stored_run new events seen s files [])
unfolding save_run atomic_write
save_run-stored new run events seen s files = refl

any-filled :
    (events : List AuditEvent)
    → any (is_event evaluation_completed) (map filled_event events)
      ≡ any (is_event evaluation_completed) events
any-filled [] = refl
any-filled (e ∷ events) = ground (arith, any-filled events)

-- The number that the state has for the last event.
abbrev pub counted : ℕ → List AuditEvent → Bool
counted n events = n == 0 || is_empty events || n == length events

-- The escalation summary of a run that awaits a reviewer is missing.
abbrev pub lacks_escalation : DurableRunState → RunDir → Bool
lacks_escalation run d =
    str_eq run.workflow_status (status_value RunStatus.awaiting_human)
    && not (is_file "escalation/summary.json" d)
    && falsy run.escalation_ref

-- The files are there, and the evaluation is in the log where the status needs one.
abbrev pub rest_clean : Bool → Bool → Bool → Bool → Bool
rest_clean refs lacks needs evaluated = refs && not lacks && not (needs && not evaluated)

abbrev pub evaluated : List AuditEvent → Bool
evaluated = any (is_event evaluation_completed)

-- What the log holds enters the check by its numbering, its last event and its evaluation.
pub clean_log :
    (run : DurableRunState) (events : List AuditEvent) (d : RunDir)
    → numbered 1 events ≡ true
    → is_empty (issues_of run (map filled_event events) d) ≡ (
        counted run.last_event_sequence events
        && rest_clean
            (is_empty (missing_refs run d))
            (lacks_escalation run d)
            (one_of run.workflow_status needs_evaluation)
            (evaluated events))
clean_log run events d h =
    clean_iff run (map filled_event events) d
    ∙ ground (
      arith,
      any-filled events,
      gap_from-numbered 1 events,
      is_empty-map filled_event events,
      filled-last events,
      last_sequence-numbered events h,
    )

-- A new event at the end of a log does not undo an evaluation.
pub evaluated-append :
    (events : List AuditEvent) (e : AuditEvent) (refs lacks needs : Bool)
    → rest_clean refs lacks needs (evaluated events) ≡ true
    → rest_clean refs lacks needs (evaluated (events ++ e ∷ [])) ≡ true
evaluated-append events e refs lacks needs h =
    ground (arith, any-append (is_event evaluation_completed) events (e ∷ []))

-- The number of a new last event.
pub counted-new :
    (events : List AuditEvent) (e : AuditEvent)
    → counted (length events + 1) (events ++ e ∷ []) ≡ true
counted-new events e =
    ground
      (arith, length-append events (e ∷ []), ==_iff (length events + 1) (length (events ++ e ∷ [])))

-- A number that does not count a new event.
pub counted-old :
    (n : ℕ) (events : List AuditEvent) (e : AuditEvent)
    → counted n events ≡ true
    → is_empty events ≡ false
    → n ≢ 0
    → counted n (events ++ e ∷ []) ≡ false
counted-old n events e c some_event nonzero = ground (
  arith,
  length-append events (e ∷ []),
  is_empty-append events (e ∷ []),
  ==_iff n (length events),
  ==_iff n 0,
  ==_iff n (length (events ++ e ∷ [])),
)
