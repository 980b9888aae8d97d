-- ===== src/Foundation/HumanDecision/Files.antt =====
-- The files of a run when a decision document is added to them (foundation/human_decision.py), as
-- verify_run_consistency looks them up.
use ci_failure_orchestrator.Common.{
  String, true, not, ◌&&◌, List, [], ◌∷◌, ◌++◌, Option, none, some, all, any-append, is_empty,
  str_eq, ◌≡◌, refl, sym, ◌∙◌, arith, eq_iff, emptiness, and-both,
}
use ci_failure_orchestrator.Foundation.RunDir.{DurableRunState, RunDir}
use ci_failure_orchestrator.Foundation.Recovery.{missing, missing_refs}

-- The references of a run but for that of the reviewer's decision.
abbrev pub other_refs : DurableRunState → List (Option String)
other_refs run =
    run.failure_event_ref ∷ run.classification_ref ∷ run.current_plan_ref ∷ run.current_proposal_ref
    ∷ run.latest_evaluation_ref ∷ run.latest_policy_decision_ref ∷ run.latest_retry_decision_ref
    ∷ run.escalation_ref ∷ []

abbrev pub with_file : String → RunDir → RunDir
with_file path d = record d { files = d.files ++ path ∷ [] }

missing_refs-empty :
    (run : DurableRunState) (d : RunDir)
    → is_empty (missing_refs run d) ≡ (
        all (λ ref. not (missing d ref)) (other_refs run)
        && not (missing d run.reviewer_decision_ref))
unfolding missing_refs
missing_refs-empty run d = simp emptiness (ground arith)

kept_file :
    (path : String) (d : RunDir) (ref : Option String)
    → not (missing d ref) ≡ true
    → not (missing (with_file path d) ref) ≡ true
kept_file path d none h = refl
kept_file path d (some r) h = ground (arith, any-append (str_eq r) d.files (path ∷ []))

kept_files :
    (path : String) (d : RunDir) (refs : List (Option String))
    → all (λ ref. not (missing d ref)) refs ≡ true
    → all (λ ref. not (missing (with_file path d) ref)) refs ≡ true
kept_files path d [] h = refl
kept_files path d (ref ∷ refs) h = ground (arith, kept_file path d ref, kept_files path d refs)

new_file : (path : String) (d : RunDir) → not (missing (with_file path d) (some path)) ≡ true
new_file path d = ground (arith, any-append (str_eq path) d.files (path ∷ []), eq_iff path path)

-- A run that misses nothing misses nothing when a decision document is added and referred to.
pub decided-refs :
    (path : String) (run : DurableRunState) (d : RunDir)
    → is_empty (missing_refs run d) ≡ true
    → is_empty (missing_refs (record run { reviewer_decision_ref = some path }) (with_file path d))
      ≡ true
decided-refs path run d h =
    let parts =
      and-both (all (λ ref. not (missing d ref)) (other_refs run))
        (sym (missing_refs-empty run d) ∙ h) in
    missing_refs-empty (record run { reviewer_decision_ref = some path }) (with_file path d)
    ∙ rw (kept_files path d (other_refs run) parts.0) (new_file path d)
