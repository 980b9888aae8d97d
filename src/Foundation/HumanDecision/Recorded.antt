-- ===== src/Foundation/HumanDecision/Recorded.antt =====
-- What an accepted decision writes: `apply_reviewer_decision` of foundation/human_decision.py on a stored
-- run, when no write fails.
use ci_failure_orchestrator.Common.{
  ℕ, ◌+◌, String, true, false, List, [], ◌∷◌, ◌++◌, some, any-append, length, str_eq, ◌≡◌, refl,
  arith, eq_iff, ◌≢◌, inl, inr,
}
use ci_failure_orchestrator.Foundation.Json.{Builtins, text, end, member}
use ci_failure_orchestrator.Foundation.Exec.{ok}
use ci_failure_orchestrator.Foundation.Durable.{
  AuditEvent, AuditEventType, DurableEvidenceRef, human_decision_recorded, Stamp,
}
use ci_failure_orchestrator.Foundation.AuditLog.Numbering.{
  numbered, admit, admit_next, admit-numbered, has_id,
}
use ci_failure_orchestrator.Foundation.AuditLog.Holding.{ids, holding, Represents}
use ci_failure_orchestrator.Foundation.RunDir.{
  DurableRunState, SummaryFile, write_json, atomic_write, kind_dir,
}
use ci_failure_orchestrator.Foundation.Recovery.Stored.{
  stored_run, append_event-stored, save_run-stored, latest-stored,
}
use ci_failure_orchestrator.Foundation.Reviewer.{ReviewerAction, Review}
use ci_failure_orchestrator.Foundation.HumanDecision.{
  terminal_event, decision_event, decided_state, decided_result, append_next, follow_up,
  record_decision,
}

abbrev pub decision_path : String
decision_path = "reviewer/decision.json"

abbrev pub decision_ref : DurableEvidenceRef
decision_ref = record { kind = "reviewer"; ref = decision_path; content_type = "application/json" }

pub write_json-stored :
    (run : DurableRunState) (events : List AuditEvent) (seen : List String) (s : SummaryFile)
    (files : List String)
    → write_json "reviewer" "decision.json" (stored_run run events seen s files [])
      ≡ (ok decision_ref, stored_run run events seen s (files ++ decision_path ∷ []) [])
unfolding write_json atomic_write kind_dir
write_json-stored run events seen s files = refl

module _ (py : Builtins) (run : DurableRunState) (s : SummaryFile) (files : List String) where
  append_next-stored :
      (event : ℕ → AuditEvent) (events : List AuditEvent) (seen : List String)
      → Represents (holding events seen) events
      → numbered 1 events ≡ true
      → admit (event (length events + 1)) events ≡ ok tt
      → let more = events ++ event (length events + 1) ∷ [] in
        append_next py event (stored_run run events seen s files [])
        ≡ (ok (length events + 1), stored_run run more (ids more) s files [])
  unfolding append_next
  append_next-stored event events seen r h a =
      rw (latest-stored py events seen h)
        (rw (append_event-stored py (event (length events + 1)) run events seen s files r h a) refl)

-- The two events of a decision that ends the run.
module _ (stamp stamp2 : Stamp) (review : Review) (reviewed : ReviewerAction) (escalation : String)
    (run : DurableRunState) (events : List AuditEvent) where
  abbrev pub first_event : AuditEvent
  first_event =
      decision_event human_decision_recorded stamp run (length events + 1) review reviewed
        decision_ref
        (member "escalation_id" (text escalation) (member "comment" (text review.comment) end))

  abbrev pub second_event : AuditEventType → AuditEvent
  second_event t =
      decision_event t stamp2 run (length (events ++ first_event ∷ []) + 1) review reviewed
        decision_ref end

  abbrev pub decided_events : AuditEventType → List AuditEvent
  decided_events t = (events ++ first_event ∷ []) ++ second_event t ∷ []

  -- The state of the run at the end.
  abbrev pub decided_run : DurableRunState
  decided_run = decided_state run reviewed decision_ref (length (events ++ first_event ∷ []) + 1)

  module _ (h : numbered 1 events ≡ true) (fresh : has_id stamp.event_id events ≡ false)
      (fresh2 : has_id stamp2.event_id events ≡ false)
      (differ : stamp2.event_id ≢ stamp.event_id) where
    admit_first : admit first_event events ≡ ok tt
    admit_first = admit_next first_event events refl fresh refl

    pub numbered_first : numbered 1 (events ++ first_event ∷ []) ≡ true
    numbered_first = admit-numbered first_event events admit_first h

    pub admit_second :
        (t : AuditEventType) → admit (second_event t) (events ++ first_event ∷ []) ≡ ok tt
    admit_second t =
        admit_next (second_event t) (events ++ first_event ∷ []) refl
          (ground (
            arith,
            any-append (λ e. str_eq stamp2.event_id e.event_id) events (first_event ∷ []),
            eq_iff stamp2.event_id stamp.event_id,
          ))
          refl

    pub record_decision-stored :
        (py : Builtins) (s : SummaryFile) (files : List String) (t : AuditEventType)
        → terminal_event reviewed ≡ some t
        → record_decision py stamp stamp2 review reviewed escalation run decision_ref
            (stored_run run events [] s files [])
          ≡ (
            ok (decided_result run reviewed (length (events ++ first_event ∷ []) + 1)),
            stored_run decided_run (decided_events t) (ids (decided_events t)) s files [],
          )
    unfolding record_decision follow_up
    record_decision-stored py s files t terminal =
        let once = events ++ first_event ∷ [] in
        let recorded = decided_state run reviewed decision_ref (length events + 1) in
        rw
          (append_next-stored py run s files
            (λ n. decision_event human_decision_recorded stamp run n review reviewed decision_ref (
              member "escalation_id" (text escalation)
                (member "comment" (text review.comment) end)))
            events [] (inl refl) h admit_first)
          (rw (save_run-stored recorded run once (ids once) s files) (
            rw terminal (
              rw
                (append_next-stored py recorded s files
                  (λ n. decision_event t stamp2 run n review reviewed decision_ref end) once
                  (ids once) (inr refl) numbered_first (admit_second t))
                (rw
                  (save_run-stored decided_run recorded (decided_events t) (ids (decided_events t))
                    s files)
                  refl))))
