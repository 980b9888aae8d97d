-- ===== src/Foundation/Recovery/Resume.antt =====
-- Resuming a stored run: resume_run of ci_failure_orchestrator/foundation/recovery.py.
use ci_failure_orchestrator.Common.{
  ◌+◌, String, true, false, List, [], ◌∷◌, ◌++◌, map, none, is_empty, length, ◌≡◌, refl, sym, ◌∙◌,
  and-both, ◌≢◌, inl,
}
use ci_failure_orchestrator.Foundation.Json.{Builtins}
use ci_failure_orchestrator.Foundation.Exec.{persistence_error, ok, raised}
use ci_failure_orchestrator.Foundation.Durable.{AuditEvent, Stamp}
use ci_failure_orchestrator.Foundation.Durable.Roundtrip.{filled_event}
use ci_failure_orchestrator.Foundation.AuditLog.{Write, kept, lost}
use ci_failure_orchestrator.Foundation.AuditLog.Numbering.{
  numbered, admit, admit-numbered, admit_next, has_id,
}
use ci_failure_orchestrator.Foundation.AuditLog.Holding.{ids}
use ci_failure_orchestrator.Foundation.RunDir.{
  DurableRunState, SummaryFile, save_run, atomic_write, load_run,
}
use ci_failure_orchestrator.Foundation.Recovery.{
  RecoveryDecision, inconsistent, is_resumable, recovery_status, assess_recovery, issues_of,
  missing_refs, one_of, needs_evaluation, verify_run_consistency, resumed_event, resume_message,
  mark_resumed, resume_checked, resume_run,
}
use ci_failure_orchestrator.Foundation.Recovery.Stored.{
  stored_run, IsClean, verify-clean, verify-stored, append_event-stored, append_event-kept,
  save_run-stored, clean_log, latest-stored, counted, counted-new, counted-old, evaluated-append,
  lacks_escalation,
}

-- The marker that resuming a run with these events appends.
abbrev pub marker : Stamp → DurableRunState → List AuditEvent → AuditEvent
marker stamp run events = resumed_event stamp run (length events + 1) resume_message

-- The run with the number of a new last event.
abbrev pub advanced : DurableRunState → List AuditEvent → DurableRunState
advanced run events = record run { last_event_sequence = length events + 1 }

admit-marker :
    (stamp : Stamp) (run : DurableRunState) (events : List AuditEvent)
    → has_id stamp.event_id events ≡ false
    → admit (marker stamp run events) events ≡ ok tt
admit-marker stamp run events fresh = admit_next (marker stamp run events) events refl fresh refl

-- The references of a run do not change with its log, and they are looked up in the same files.
missing-advanced :
    (run : DurableRunState) (events more : List AuditEvent) (seen seen' : List String)
    (s : SummaryFile) (files : List String) (w w' : List Write)
    → missing_refs (advanced run events) (stored_run (advanced run events) more seen s files w)
      ≡ missing_refs run (stored_run run events seen' s files w')
unfolding missing_refs
missing-advanced run events more seen seen' s files w w' = refl

-- A next event and its number in the state leave a clean run clean.
pub advanced-IsClean :
    (e : AuditEvent) (run : DurableRunState) (events : List AuditEvent) (seen seen' : List String)
    (s : SummaryFile) (files : List String) (w w' : List Write)
    → numbered 1 events ≡ true
    → admit e events ≡ ok tt
    → IsClean run events (stored_run run events seen s files w)
    → IsClean
        (advanced run events)
        (events ++ e ∷ [])
        (stored_run (advanced run events) (events ++ e ∷ []) seen' s files w')
advanced-IsClean e run events seen seen' s files w w' h a c =
    let before = sym (clean_log run events (stored_run run events seen s files w) h) ∙ c in
    let parts = and-both (counted run.last_event_sequence events) before in
    clean_log (advanced run events) (events ++ e ∷ [])
      (stored_run (advanced run events) (events ++ e ∷ []) seen' s files w')
      (admit-numbered e events a h)
    ∙ rw (counted-new events e) (
        rw (missing-advanced run events (events ++ e ∷ []) seen' seen s files w' w) (
          evaluated-append events e
            (is_empty (missing_refs run (stored_run run events seen s files w)))
            (lacks_escalation run (stored_run run events seen s files w))
            (one_of run.workflow_status needs_evaluation) parts.1))

-- A next event that the state does not count is found by the check, for good.
pub uncounted_event_found :
    (e : AuditEvent) (run : DurableRunState) (events : List AuditEvent) (seen seen' : List String)
    (s : SummaryFile) (files : List String) (w w' : List Write)
    → numbered 1 events ≡ true
    → admit e events ≡ ok tt
    → IsClean run events (stored_run run events seen s files w)
    → run.last_event_sequence ≢ 0
    → is_empty events ≡ false
    → is_empty (
        issues_of run
          (map filled_event (events ++ e ∷ []))
          (stored_run run (events ++ e ∷ []) seen' s files w'))
      ≡ false
uncounted_event_found e run events seen seen' s files w w' h a c nonzero some_event =
    let before = sym (clean_log run events (stored_run run events seen s files w) h) ∙ c in
    let parts = and-both (counted run.last_event_sequence events) before in
    clean_log run (events ++ e ∷ []) (stored_run run (events ++ e ∷ []) seen' s files w')
      (admit-numbered e events a h)
    ∙ rw (counted-old run.last_event_sequence events e parts.0 some_event nonzero) refl

module _ (py : Builtins) (stamp : Stamp) (run : DurableRunState) (events : List AuditEvent)
    (seen : List String) (s : SummaryFile) (files : List String) (h : numbered 1 events ≡ true)
    (fresh : has_id stamp.event_id events ≡ false) where
  mark_resumed-stored :
      mark_resumed py stamp run (assess_recovery run) (stored_run run events [] s files []) ≡ (
        ok (assess_recovery run),
        stored_run
            (advanced run events)
            (events ++ marker stamp run events ∷ [])
            (ids (events ++ marker stamp run events ∷ []))
            s
            files
            [],
      )
  unfolding mark_resumed
  mark_resumed-stored = rw (latest-stored py events [] h) (
      rw
        (append_event-stored py (marker stamp run events) run events [] s files (inl refl) h
          (admit-marker stamp run events fresh))
        (rw
          (save_run-stored (advanced run events) run (events ++ marker stamp run events ∷ [])
            (ids (events ++ marker stamp run events ∷ [])) s files)
          refl))

  mark_resumed_interrupted :
      mark_resumed py stamp run
        (assess_recovery run)
        (stored_run run events [] s files (kept ∷ lost ∷ []))
      ≡ (
        raised persistence_error,
        stored_run run
            (events ++ marker stamp run events ∷ [])
            (ids (events ++ marker stamp run events ∷ []))
            s
            files
            [],
      )
  unfolding mark_resumed save_run atomic_write
  mark_resumed_interrupted = rw (latest-stored py events [] h) (
      rw
        (append_event-kept py (marker stamp run events) run events [] s files (inl refl) h
          (admit-marker stamp run events fresh) (lost ∷ []))
        refl)

-- The decision about a run in which the check finds something.
abbrev pub refusal : DurableRunState → RecoveryDecision
refusal run = record {
  status = inconsistent;
  workflow_status = run.workflow_status;
  last_sequence = run.last_event_sequence;
}

module _ (py : Builtins) where
  resume_run-clean :
      (stamp : Stamp) (run : DurableRunState) (events : List AuditEvent) (seen : List String)
      (s : SummaryFile) (files : List String) (w : List Write)
      → IsClean run events (stored_run run events [] s files w)
      → is_resumable (recovery_status run.workflow_status) ≡ true
      → resume_run py stamp (stored_run run events seen s files w)
        ≡ mark_resumed py stamp run (assess_recovery run) (stored_run run events [] s files w)
  unfolding resume_run load_run resume_checked assess_recovery
  resume_run-clean stamp run events seen s files w c r =
      rw (verify-stored py run events [] s files w) (rw c (rw r refl))

  resume_run_refused :
      (stamp : Stamp) (run : DurableRunState) (events : List AuditEvent) (seen : List String)
      (s : SummaryFile) (files : List String) (w : List Write)
      → is_empty (issues_of run (map filled_event events) (stored_run run events [] s files w))
        ≡ false
      → resume_run py stamp (stored_run run events seen s files w)
        ≡ (ok (refusal run), stored_run run events [] s files w)
  unfolding resume_run load_run resume_checked assess_recovery
  resume_run_refused stamp run events seen s files w c =
      rw (verify-stored py run events [] s files w) (rw c refl)

  -- A run whose log is numbered and whose state, log and files agree, in a status that may be resumed:
  -- resuming it under a new identifier, with no write failing, gives the decision RESUMABLE, adds one
  -- RUN_RESUMED event with the next number, changes nothing of the state but the number of the last
  -- event, and the state, the log and the files agree again.
  pub resumed_run-IsClean :
      (stamp : Stamp) (run : DurableRunState) (events : List AuditEvent) (seen : List String)
      (s : SummaryFile) (files : List String)
      → numbered 1 events ≡ true
      → has_id stamp.event_id events ≡ false
      → IsClean run events (stored_run run events [] s files [])
      → is_resumable (recovery_status run.workflow_status) ≡ true
      → let more = events ++ marker stamp run events ∷ [] in
        let after = stored_run (advanced run events) more (ids more) s files [] in
        (resume_run py stamp (stored_run run events seen s files [])
          ≡ (ok (assess_recovery run), after))
        × (verify_run_consistency py none none after ≡ ok [])
  resumed_run-IsClean stamp run events seen s files h fresh c r = (
    resume_run-clean stamp run events seen s files [] c r
        ∙ mark_resumed-stored py stamp run events seen s files h fresh,
    verify-clean py (advanced run events) (events ++ marker stamp run events ∷ [])
        (ids (events ++ marker stamp run events ∷ [])) s files []
        (advanced-IsClean (marker stamp run events) run events []
          (ids (events ++ marker stamp run events ∷ [])) s files [] [] h
          (admit-marker stamp run events fresh) c),
  )

  -- A run that has logged before, is numbered and agrees with its files, in a status that may be
  -- resumed: the event of resuming it is written and the write of its state fails. The call raises
  -- the PersistenceError, and every later call, with whatever writes, finds the run inconsistent and
  -- leaves its files as they are.
  pub interrupted_resume_blocks :
      (stamp later : Stamp) (run : DurableRunState) (events : List AuditEvent) (seen : List String)
      (s : SummaryFile) (files : List String) (w : List Write)
      → numbered 1 events ≡ true
      → has_id stamp.event_id events ≡ false
      → IsClean run events (stored_run run events [] s files (kept ∷ lost ∷ []))
      → is_resumable (recovery_status run.workflow_status) ≡ true
      → run.last_event_sequence ≢ 0
      → is_empty events ≡ false
      → let more = events ++ marker stamp run events ∷ [] in
        (resume_run py stamp (stored_run run events seen s files (kept ∷ lost ∷ []))
          ≡ (raised persistence_error, stored_run run more (ids more) s files []))
        × (resume_run py later (stored_run run more (ids more) s files w)
            ≡ (ok (refusal run), stored_run run more [] s files w))
  interrupted_resume_blocks stamp later run events seen s files w h fresh c r nonzero some_event =
      let m = marker stamp run events in
      (
        resume_run-clean stamp run events seen s files (kept ∷ lost ∷ []) c r
            ∙ mark_resumed_interrupted py stamp run events seen s files h fresh,
        resume_run_refused later run (events ++ m ∷ []) (ids (events ++ m ∷ [])) s files w (
            uncounted_event_found m run events [] [] s files (kept ∷ lost ∷ []) w h
              (admit-marker stamp run events fresh) c nonzero some_event),
      )
