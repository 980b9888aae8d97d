-- ===== src/Governed/Gates.antt =====
-- What a success of the governed pipeline with its own sandbox, evaluator and policy says of the proposal
-- (ci_failure_orchestrator/governed/pipeline.py, sandbox.py, evaluation.py and policy.py).
use ci_failure_orchestrator.Common.{
  ℕ, ◌≤◌, String, Bool, true, false, not, ◌&&◌, List, some, any, length, is_empty, ltb, codes,
  is_blank, contains, [], ◌∷◌, if◌then◌else◌, ◌≡◌, refl, sym, ap, ◌∙◌, arith, and-both,
}
use mathlib.Core.Option.{some-injective}
use ci_failure_orchestrator.Loops.{Returns, Returns-weakens}
use ci_failure_orchestrator.Governed.States.{is, succeeded}
use ci_failure_orchestrator.Governed.Defs.{
  FailureEvent, FailureClassification, RepairProposal, EvaluationResult, PolicyDecision,
  sandbox_execute, local_evaluate, policy_evaluate, default_config, out_of_scope, sensitive, listed,
  has_marker, forbidden_markers,
}
use ci_failure_orchestrator.Governed.Retry.{RetryBudget}
use ci_failure_orchestrator.Governed.Outcomes.{PipelineResult, Pipeline, Metric, Collaborators}
use ci_failure_orchestrator.Governed.Pipeline.{run, with_defaults}
use ci_failure_orchestrator.Governed.Accounts.{is_approve}
use ci_failure_orchestrator.Governed.Endings.{Accounts}
use ci_failure_orchestrator.Governed.Rounds.{Judged}
use ci_failure_orchestrator.Governed.Ends.{pipeline-Accounts}

-- A patch with text, in the repository, of few files with usual names, for a class that needs no person.
abbrev pub harmless : FailureClassification → RepairProposal → Bool
harmless k p =
    not (is_blank (codes p.proposed_patch))
    && not (contains (0 ∷ []) (codes p.proposed_patch))
    && not (any out_of_scope p.files_affected)
    && not (ltb 20 (length p.files_affected))
    && is_empty (sensitive p.files_affected)
    && not (listed k.failure_class default_config.always_escalate_classes)
    && listed k.failure_class default_config.allowed_failure_classes_for_auto

is_approve-if :
    (b : Bool) (x y : PolicyDecision)
    → is_approve (if b then x else y).outcome
      ≡ (if b then is_approve x.outcome else is_approve y.outcome)
is_approve-if true x y = refl
is_approve-if false x y = refl

policy_approves :
    (k : FailureClassification) (p : RepairProposal) (ev : EvaluationResult) (tools : List String)
    → ev.target_check_passed ≡ true
    → is_approve (policy_evaluate default_config p k ev tools).outcome ≡ (
        ev.passed
        && not (ltb 20 (length p.files_affected))
        && is_empty (sensitive p.files_affected)
        && not (listed k.failure_class default_config.always_escalate_classes)
        && listed k.failure_class default_config.allowed_failure_classes_for_auto
        && ev.policy_safe)
unfolding policy_evaluate
policy_approves k p ev tools h = simp is_approve-if (
    by_tests ev.passed (ltb 20 (length p.files_affected)) (is_empty (sensitive p.files_affected))
      (listed k.failure_class default_config.always_escalate_classes)
      (listed k.failure_class default_config.allowed_failure_classes_for_auto)
      (listed "test_runner" tools) ev.target_check_passed ev.policy_safe h)
  where
    by_tests :
        (passed many usual always by_class runner target safe : Bool)
        → target ≡ true
        → (if true && not passed
            then false
            else if many
            then false
            else if true && not usual
            then false
            else if always
            then false
            else if not by_class
            then false
            else if runner && not target
            then false
            else if not safe
            then false
            else true)
          ≡ (passed && not many && usual && not always && by_class && safe)
    by_tests passed many usual always by_class runner target safe h = ground arith

passes_when :
    (late : Bool) (p : RepairProposal)
    → (local_evaluate p (sandbox_execute late p) true).passed ≡ (
        not late
        && not (any (has_marker forbidden_markers) p.files_affected)
        && not (is_blank (codes p.proposed_patch))
        && not (contains (0 ∷ []) (codes p.proposed_patch))
        && not (any out_of_scope p.files_affected))
unfolding sandbox_execute local_evaluate
passes_when late p = ground arith

-- The sandbox, the evaluator and the policy with its default configuration, one behind the other,
-- approve exactly the harmless proposals that ran in time and touch no forbidden path.
pub gates_approve :
    (late : Bool) (k : FailureClassification) (p : RepairProposal) (tools : List String)
    → is_approve
        (policy_evaluate default_config p k
          (local_evaluate p (sandbox_execute late p) true)
          tools).outcome
      ≡ (not late && not (any (has_marker forbidden_markers) p.files_affected) && harmless k p)
unfolding local_evaluate
gates_approve late k p tools =
    policy_approves k p (local_evaluate p (sandbox_execute late p) true) tools refl
    ∙ rw (passes_when late p) (
        by_tests (not late) (not (any (has_marker forbidden_markers) p.files_affected))
          (not (is_blank (codes p.proposed_patch)))
          (not (contains (0 ∷ []) (codes p.proposed_patch)))
          (not (any out_of_scope p.files_affected)) _ _ _ _)
  where
    by_tests :
        (a b c d e f g h i : Bool)
        → ((a && b && c && d && e) && f && g && h && i && b)
          ≡ (a && b && (c && d && e && f && g && h && i))
    by_tests true true c d e f g h i = ground arith
    by_tests false b c d e f g h i = refl
    by_tests true false c d e f g h i = refl

-- What a success stands on.
pub record Careful (late : ℕ → Bool) (r : PipelineResult) : Type 0 where
  pub proposal : RepairProposal
  pub attempt : ℕ
  pub proposed : r.proposal ≡ some proposal
  pub in_time : late attempt ≡ false
  pub no_forbidden_path : any (has_marker forbidden_markers) proposal.files_affected ≡ false
  pub proposal_is_harmless : harmless r.classification proposal ≡ true

module _ {Context : Type 0} (late : ℕ → Bool) (parts : Collaborators Context) where
  approval-Careful :
      (b : RetryBudget) (r : PipelineResult) (p : Pipeline)
      → Accounts b (Judged (with_defaults late parts)) r p
      → is r.state succeeded ≡ true
      → Careful late r
  approval-Careful b r p a success =
      let base = a.fits success in
      let j = base.grounds in
      let k = r.classification in
      let approved : is_approve base.decision.outcome ≡ true =
        (and-both (is_approve base.decision.outcome)
          (rw (base.decided, base.evaluated) at (sym a.says ∙ success))).0 in
      let tests =
        sym (gates_approve (late j.attempt) k base.proposal j.tools)
        ∙ (ap
              (λ s.
                is_approve
                  (policy_evaluate default_config base.proposal k
                    (local_evaluate base.proposal s true) j.tools).outcome)
              (some-injective _ _ j.sandboxed)
            ∙ ap
                (λ ev.
                  is_approve (policy_evaluate default_config base.proposal k ev j.tools).outcome)
                (some-injective _ _ j.evaluated)
            ∙ ap (λ (d : PolicyDecision). is_approve d.outcome) (some-injective _ _ j.decided)
            ∙ approved) in
      record {
        proposal = base.proposal;
        attempt = j.attempt;
        proposed = base.proposed;
        in_time = ground (arith, tests);
        no_forbidden_path = ground (arith, tests);
        proposal_is_harmless = ground (arith, tests);
      }

  -- A run of the governed pipeline with its own sandbox, evaluator and policy, for any other collaborators
  -- and a limit of repeated failures that is not 0, is SUCCEEDED only with a proposal that the sandbox
  -- checked in time: it has text and no NUL, its files are at most 20, in the repository and on no
  -- sensitive or forbidden path, and the failure's class is one that the policy may approve alone.
  pub pipeline-Careful :
      (e : FailureEvent) (b : RetryBudget)
      → 1 ≤ b.repeated_failure_limit
      → (metrics : List Metric) (audit : List String)
      → Returns
          (λ r p. is r.state succeeded ≡ true → Careful late r)
          (run (with_defaults late parts) e b metrics audit)
  pipeline-Careful e b positive metrics audit =
      Returns-weakens (approval-Careful b) (run (with_defaults late parts) e b metrics audit)
        (pipeline-Accounts (with_defaults late parts) e b positive metrics audit)
