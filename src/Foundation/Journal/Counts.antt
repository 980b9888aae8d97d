-- ===== src/Foundation/Journal/Counts.antt =====
-- What a save and a checkpoint keep of a run that counts the events of its log (`RunPersistence` of
-- foundation/persistence.py).
use ci_failure_orchestrator.Common.{
  String, Bool, true, false, List, [], ◌∷◌, Option, none, some, length, all, ◌≡◌, refl, sym, subst,
  ◌∙◌, arith,
}
use ci_failure_orchestrator.Foundation.Exec.{Result, ok, raised, continue, return}
use ci_failure_orchestrator.Foundation.Durable.{AuditEvent}
use ci_failure_orchestrator.Foundation.AuditLog.{Write, kept, lost}
use ci_failure_orchestrator.Foundation.AuditLog.Numbering.{numbered, distinct}
use ci_failure_orchestrator.Foundation.AuditLog.Holding.{Represents}
use ci_failure_orchestrator.Foundation.RunDir.{DurableRunState, RunDir, save_run, atomic_write}
use ci_failure_orchestrator.Foundation.Journal.{
  RunPersistence, Checkpoint, checkpointed, checkpoint, EvidenceRef, failure_event, classification,
  current_plan, current_proposal, latest_evaluation, latest_policy_decision, latest_retry_decision,
  escalation, reviewer_decision, set_ref, set_refs,
}

-- Writes that keep the whole text or none of it.
abbrev pub is_atomic : Write → Bool
is_atomic kept = true
is_atomic lost = true
is_atomic _ = false

-- The run counts the events of the log in the directory.
pub record InStep (run : DurableRunState) (events : List AuditEvent) (d : RunDir) : Type 0 where
  pub log : Represents d.audit events
  pub in_order : numbered 1 events ≡ true
  pub different : distinct events ≡ true
  pub counts : run.last_event_sequence ≡ length events
  pub atomic : all is_atomic d.writes ≡ true

-- The journal with a run in memory.
abbrev pub at_run : DurableRunState → String → RunDir → RunPersistence
at_run run actor d = record { dir = d; durable = some run; actor = actor }

save_run-audit : (run : DurableRunState) (d : RunDir) → (save_run run d).1.audit ≡ d.audit
unfolding save_run atomic_write
save_run-audit run d = ground arith

save_run-atomic :
    (run : DurableRunState) (d : RunDir)
    → all is_atomic d.writes ≡ true
    → all is_atomic (save_run run d).1.writes ≡ true
unfolding save_run atomic_write
save_run-atomic run d h = ground arith

pub save-InStep :
    (new run : DurableRunState) (events : List AuditEvent) (d : RunDir)
    → InStep run events d
    → InStep run events (save_run new d).1
save-InStep new run events d i = record {
  log = subst (λ a. Represents a events) (sym (save_run-audit new d)) i.log;
  in_order = i.in_order;
  different = i.different;
  counts = i.counts;
  atomic = save_run-atomic new d i.atomic;
}

set_ref-count :
    (key : EvidenceRef) (value : String) (run : DurableRunState)
    → (set_ref key value run).last_event_sequence ≡ run.last_event_sequence
unfolding set_ref
set_ref-count failure_event value run = refl
set_ref-count classification value run = refl
set_ref-count current_plan value run = refl
set_ref-count current_proposal value run = refl
set_ref-count latest_evaluation value run = refl
set_ref-count latest_policy_decision value run = refl
set_ref-count latest_retry_decision value run = refl
set_ref-count escalation value run = refl
set_ref-count reviewer_decision value run = refl

set_refs-count :
    (refs : List (EvidenceRef × Option String)) (run : DurableRunState)
    → (set_refs refs run).last_event_sequence ≡ run.last_event_sequence
unfolding set_refs
set_refs-count [] run = refl
set_refs-count ((key, none) ∷ refs) run = set_refs-count refs run
set_refs-count ((key, some value) ∷ refs) run =
    set_refs-count refs (set_ref key value run) ∙ set_ref-count key value run

checkpointed-count :
    (c : Checkpoint) (run : DurableRunState)
    → (checkpointed c run).last_event_sequence ≡ run.last_event_sequence
unfolding checkpointed
checkpointed-count c run = set_refs-count c.refs _

pub checkpoint-run :
    (c : Checkpoint) (run : DurableRunState) (actor : String) (d : RunDir)
    → (checkpoint c (at_run run actor d)).1
      ≡ at_run (checkpointed c run) actor (save_run (checkpointed c run) d).1
unfolding checkpoint
checkpoint-run c run actor d = refl

pub checkpoint-InStep :
    (c : Checkpoint) (run : DurableRunState) (events : List AuditEvent) (d : RunDir)
    → InStep run events d
    → InStep (checkpointed c run) events (save_run (checkpointed c run) d).1
checkpoint-InStep c run events d i =
    let saved = save-InStep (checkpointed c run) run events d i in
    record {
      log = saved.log;
      in_order = saved.in_order;
      different = saved.different;
      counts = checkpointed-count c run ∙ saved.counts;
      atomic = saved.atomic;
    }

pub continue-return :
    {A : Type 0} (r : Result {0} Unit) (a : A) (j : RunPersistence)
    → (continue r (λ _. return a) j).1 ≡ j
continue-return (ok _) a j = refl
continue-return (raised x) a j = refl
