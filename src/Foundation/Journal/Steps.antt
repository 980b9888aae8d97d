-- ===== src/Foundation/Journal/Steps.antt =====
-- The journal of a run in step with its log (`RunPersistence` of foundation/persistence.py).
use ci_failure_orchestrator.Common.{
  String, Bool, true, false, List, [], ◌∷◌, ◌++◌, length-append, all, ◌≡◌, refl, ap, ◌∙◌, arith,
  ◌⊎◌, inl, inr,
}
use ci_failure_orchestrator.Foundation.Json.{Builtins}
use ci_failure_orchestrator.Foundation.Exec.{Exception, persistence_error, Result, ok, raised}
use ci_failure_orchestrator.Foundation.Durable.{AuditEvent, Stamp}
use ci_failure_orchestrator.Foundation.AuditLog.{
  FileAuditStore, Write, kept, lost, cut, no_line_end, append,
}
use ci_failure_orchestrator.Foundation.AuditLog.Numbering.{
  numbered, admit, admit-numbered, admit-distinct,
}
use ci_failure_orchestrator.Foundation.AuditLog.Holding.{Represents, appended, append_admits}
use ci_failure_orchestrator.Foundation.AuditLog.Refines.{appended-Agree, write_of}
use ci_failure_orchestrator.Foundation.RunDir.{
  DurableRunState, RunDir, next_write, save_run, append_event,
}
use ci_failure_orchestrator.Foundation.Journal.{
  RunPersistence, Emission, emitted_event, emitted_state, emit, Checkpoint, checkpointed,
  checkpoint,
}
use ci_failure_orchestrator.Foundation.Journal.Counts.{
  InStep, at_run, checkpoint-InStep, checkpoint-run, continue-return, is_atomic, save-InStep,
}

-- How an append ends: with the event in the log, or with an exception and the log as it was.
abbrev Ends : AuditEvent → List AuditEvent → Result {0} Unit × FileAuditStore → Type 0
Ends e events (answer, s) =
    ((answer ≡ ok tt) × (admit e events ≡ ok tt) × Represents s (events ++ e ∷ []))
    ⊎ ((x : Exception) × (answer ≡ raised x) × Represents s events)

next-audit : (d : RunDir) → (next_write d).1.audit ≡ d.audit
next-audit d = ground arith

next-writes :
    (d : RunDir) → all is_atomic d.writes ≡ true → all is_atomic (next_write d).1.writes ≡ true
next-writes d h = ground arith

next_atomic :
    (d : RunDir) → all is_atomic d.writes ≡ true → (b : Bool) × ((next_write d).0 ≡ write_of b)
next_atomic d h = by_writes d.writes refl h
  where
    by_writes :
        (ws : List Write)
        → d.writes ≡ ws
        → all is_atomic ws ≡ true
        → (b : Bool) × ((next_write d).0 ≡ write_of b)
    by_writes [] eq h = (true, ground arith)
    by_writes (kept ∷ ws) eq h = (true, ground arith)
    by_writes (lost ∷ ws) eq h = (false, ground arith)
    by_writes (cut ∷ ws) eq h = (true, ground arith)
    by_writes (no_line_end ∷ ws) eq h = (true, ground arith)

module _ (py : Builtins) where
  emit-kept :
      (stamp : Stamp) (e : Emission) (run : DurableRunState) (actor : String) (d d' : RunDir)
      → append_event py (emitted_event stamp actor run e) d ≡ (ok tt, d')
      → (emit py stamp e (at_run run actor d)).1
        ≡ at_run (emitted_state run e) actor (save_run (emitted_state run e) d').1
  unfolding emit
  emit-kept stamp e run actor d d' a = rw a (
      continue-return (save_run (emitted_state run e) d').0 (emitted_event stamp actor run e)
        (at_run (emitted_state run e) actor (save_run (emitted_state run e) d').1))

  emit-raised :
      (stamp : Stamp) (e : Emission) (run : DurableRunState) (actor : String) (d d' : RunDir)
      (x : Exception)
      → append_event py (emitted_event stamp actor run e) d ≡ (raised x, d')
      → emit py stamp e (at_run run actor d) ≡ (raised x, at_run run actor d')
  unfolding emit
  emit-raised stamp e run actor d d' x a = rw a refl

  append-Ends :
      (e : AuditEvent) (b : Bool) (s : FileAuditStore) (events : List AuditEvent)
      → Represents s events
      → numbered 1 events ≡ true
      → Ends e events (append py e (write_of b) s)
  append-Ends e b s events r h =
      rw (append_admits py e (write_of b) s events r h) (by_answer b (admit e events) refl)
    where
      by_answer :
          (b : Bool) (a : Result {0} Unit)
          → admit e events ≡ a
          → Ends e events (appended py e (write_of b) s events a)
      by_answer b (raised x) eq =
          let agree = appended-Agree py e b s events (raised x) r in inr (x, agree.0, agree.1)
      by_answer true (ok _) eq =
          let agree = appended-Agree py e true s events (ok tt) r in inl (agree.0, eq, agree.1)
      by_answer false (ok _) eq =
          let agree = appended-Agree py e false s events (ok tt) r in
          inr (persistence_error, agree.0, agree.1)

  -- The write that the directory holds for the append.
  append_event-Ends :
      (e : AuditEvent) (d : RunDir) (events : List AuditEvent)
      → Represents d.audit events
      → numbered 1 events ≡ true
      → all is_atomic d.writes ≡ true
      → Ends e events ((append_event py e d).0, (append_event py e d).1.audit)
        × (all is_atomic (append_event py e d).1.writes ≡ true)
  unfolding append_event
  append_event-Ends e d events r h w =
      let (b, next) = next_atomic d w in
      (rw next (rw (next-audit d) (append-Ends e b d.audit events r h)), next-writes d w)

  -- A call on the journal: an event or a checkpoint.
  emit-InStep :
      (stamp : Stamp) (e : Emission) (run : DurableRunState) (events : List AuditEvent)
      (actor : String) (d : RunDir)
      → InStep run events d
      → (run' : DurableRunState) × (events' : List AuditEvent) × (d' : RunDir) × ((emit py stamp e
            (at_run run actor d)).1
          ≡ at_run run' actor d')
        × InStep run' events' d'
  emit-InStep stamp e run events actor d i =
      let event = emitted_event stamp actor run e in
      let (ends, writes) = append_event-Ends event d events i.log i.in_order i.atomic in
      elim ends [
        | inl (answer, a, log) ↦
            let d2 = (append_event py event d).1 in
            let logged : InStep (emitted_state run e) (events ++ event ∷ []) d2 = record {
              log = log;
              in_order = admit-numbered event events a i.in_order;
              different = admit-distinct event events a i.different;
              counts = omega (arith, i.counts, length-append events (event ∷ []));
              atomic = writes;
            } in
            (
              emitted_state run e,
              events ++ event ∷ [],
              (save_run (emitted_state run e) d2).1,
              emit-kept stamp e run actor d d2 (ap (λ r. (r, d2)) answer),
              save-InStep (emitted_state run e) (emitted_state run e) (events ++ event ∷ []) d2
                  logged,
            )
        | inr (x, answer, log) ↦
            let d2 = (append_event py event d).1 in
            (
              run,
              events,
              d2,
              ap (λ r. r.1) (emit-raised stamp e run actor d d2 x (ap (λ r. (r, d2)) answer)),
              record {
                log = log;
                in_order = i.in_order;
                different = i.different;
                counts = i.counts;
                atomic = writes;
              },
            )
      ]

-- What a runner does with its journal.
pub data Call : Type 0 where
  emits : Stamp → Emission → Call
  checkpoints : Checkpoint → Call

module _ (py : Builtins) where
  -- A runner that goes on after an exception of the journal.
  unfoldable pub after_calls : List Call → RunPersistence → RunPersistence
  after_calls [] j = j
  after_calls (emits stamp e ∷ calls) j = after_calls calls (emit py stamp e j).1
  after_calls (checkpoints c ∷ calls) j = after_calls calls (checkpoint c j).1

  -- A journal whose state in memory has the number of events of its log, which are numbered from 1 and
  -- have different identifiers: this is so again behind any events and any checkpoints of the named
  -- fields and of evidence references, with writes that keep their text or fail and leave none of it.
  pub journal-InStep :
      (calls : List Call) (run : DurableRunState) (events : List AuditEvent) (actor : String)
      (d : RunDir)
      → InStep run events d
      → (run' : DurableRunState) × (events' : List AuditEvent) × (d' : RunDir) × (after_calls calls
            (at_run run actor d)
          ≡ at_run run' actor d')
        × InStep run' events' d'
  unfolding after_calls
  journal-InStep [] run events actor d i = (run, events, d, refl, i)
  journal-InStep (emits stamp e ∷ calls) run events actor d i =
      let (run2, events2, d2, made, i2) = emit-InStep py stamp e run events actor d i in
      let (run', events', d', rest, i') = journal-InStep calls run2 events2 actor d2 i2 in
      (run', events', d', ap (after_calls calls) made ∙ rest, i')
  journal-InStep (checkpoints c ∷ calls) run events actor d i =
      let (run', events', d', rest, i') =
        journal-InStep calls (checkpointed c run) events actor (save_run (checkpointed c run) d).1
          (checkpoint-InStep c run events d i) in
      (run', events', d', ap (after_calls calls) (checkpoint-run c run actor d) ∙ rest, i')
