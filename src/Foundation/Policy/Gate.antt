-- ===== src/Foundation/Policy/Gate.antt =====
-- What a decision of the policy gate of ci_failure_orchestrator/foundation/policy.py promises.
use ci_failure_orchestrator.Common.{
  ℕ, ◌≤◌, String, codes, contains, starts_with, replace_char, is_blank, Bool, true, false, not,
  ◌&&◌, List, [], ◌∷◌, ◌≡◌, refl, arith, Option, none, some, map, length, any, all, select,
  is_empty, emptiness, ltb, ◌==◌, str_eq, Option-cases, inl, inr,
}
use ci_failure_orchestrator.Foundation.Models.{
  ToolRiskLevel, FailureClassification, RepairProposal, EvaluationResult,
}
use ci_failure_orchestrator.Foundation.Policy.Paths.Files.{
  is_small, FileCategory, ci, dependency, security, auth, infrastructure, migration, ChangeScope,
  risk_order, classify_file,
}
use ci_failure_orchestrator.Foundation.Policy.Paths.Risk.{
  classify_scope, distinct, directories, has_category, classify_risk, plain_category, critical_path,
  classify_risk-low,
}
use ci_failure_orchestrator.Foundation.Policy.Defs.{
  IntegrityFinding, PolicyContext, PolicyConfig, is_approve, is_rejecting, is_escalating,
  default_config, is_valid,
}
use ci_failure_orchestrator.Foundation.Policy.Context.{
  build_policy_context, matching_paths, path_contains_markers, hits, unique_codes,
}
use ci_failure_orchestrator.Foundation.Policy.Engine.{
  classification_escalations, first_escalations, last_escalations, escalations,
  eligible_auto_approve, evaluate_findings, evaluate,
}

-- A classification that calls for no escalation.
abbrev pub trusted : PolicyConfig → Option FailureClassification → Bool
trusted cfg none = false
trusted cfg (some c) =
    not (any (str_eq c.category) cfg.escalation_failure_categories)
    && not (ltb c.confidence cfg.min_classification_confidence)

no_classification_escalations :
    (cfg : PolicyConfig) (c : Option FailureClassification)
    → is_empty (classification_escalations cfg c) ≡ trusted cfg c
unfolding classification_escalations
no_classification_escalations cfg none = refl
no_classification_escalations cfg (some c) = simp emptiness

is_empty-unique_codes : (cs : List String) → is_empty (unique_codes cs) ≡ is_empty cs
unfolding unique_codes
is_empty-unique_codes [] = refl
is_empty-unique_codes (c ∷ cs) = refl

no_findings :
    (findings : List IntegrityFinding)
    → (is_empty (select is_rejecting findings) && is_empty (select is_escalating findings))
      ≡ is_empty findings
no_findings [] = refl
no_findings (f ∷ fs) = ground (arith, no_findings fs)

no_first_escalations :
    (cfg : PolicyConfig) (ctx : PolicyContext) (findings : List IntegrityFinding)
    → is_empty (first_escalations cfg ctx findings) ≡ (
        is_empty (select is_escalating findings)
        && trusted cfg ctx.classification
        && is_empty (hits auth ctx.changed_files ctx.file_categories)
        && not (path_contains_markers ctx.changed_files cfg.security_path_markers)
        && is_empty (hits security ctx.changed_files ctx.file_categories)
        && is_empty (hits ci ctx.changed_files ctx.file_categories)
        && is_empty (matching_paths ctx.changed_files cfg.ci_path_prefixes)
        && is_empty (hits dependency ctx.changed_files ctx.file_categories)
        && not (has_category infrastructure ctx.file_categories)
        && not (has_category migration ctx.file_categories))
unfolding first_escalations
no_first_escalations cfg ctx findings =
    simp (emptiness, is_empty-unique_codes, no_classification_escalations) (ground arith)

no_escalations :
    (cfg : PolicyConfig) (ctx : PolicyContext) (findings : List IntegrityFinding)
    → is_empty (escalations cfg ctx findings) ≡ (
        is_empty (first_escalations cfg ctx findings)
        && is_empty (matching_paths ctx.changed_files cfg.escalation_paths)
        && is_empty (last_escalations cfg ctx))
unfolding escalations
no_escalations cfg ctx findings = simp emptiness (ground arith)

findings_escalate :
    (cfg : PolicyConfig) (ctx : PolicyContext) (findings : List IntegrityFinding)
    → is_empty (escalations cfg ctx findings) ≡ true
    → is_empty (select is_escalating findings) ≡ true
findings_escalate cfg ctx findings h =
    ground (arith, no_escalations cfg ctx findings, no_first_escalations cfg ctx findings)

findings_approve :
    (cfg : PolicyConfig) (ctx : PolicyContext) (findings : List IntegrityFinding)
    → is_approve cfg.default_outcome ≡ false
    → is_approve (evaluate_findings cfg ctx findings).outcome
      ≡ (is_empty findings && is_empty (escalations cfg ctx []) && eligible_auto_approve ctx cfg)
unfolding evaluate_findings
findings_approve cfg ctx [] d = ground arith
findings_approve cfg ctx (f ∷ fs) d =
    ground (arith, no_findings (f ∷ fs), findings_escalate cfg ctx (f ∷ fs))

module _ (analyze_patch : String → Option (List IntegrityFinding)) where
  -- The analysis ran and found nothing.
  abbrev pub clean : String → Bool
  clean patch = elim (analyze_patch patch) [ none ↦ false | some findings ↦ is_empty findings ]

  -- With a valid configuration APPROVE is decided exactly when the evaluation passed, the proposal is
  -- not empty and touches no forbidden path, the patch analysis ran and found nothing, no escalation
  -- was raised and the change is eligible for automatic approval.
  pub evaluate-approve :
      (cfg : PolicyConfig) (ctx : PolicyContext)
      → is_valid cfg ≡ true
      → is_approve (evaluate analyze_patch cfg ctx).outcome ≡ (
          ctx.evaluation.passed
          && not (is_empty ctx.changed_files)
          && not (is_blank (codes ctx.proposal.patch))
          && is_empty (matching_paths ctx.changed_files cfg.forbidden_paths)
          && clean ctx.proposal.patch
          && is_empty (escalations cfg ctx [])
          && eligible_auto_approve ctx cfg)
  unfolding evaluate is_valid
  evaluate-approve cfg ctx v = elim (Option-cases (analyze_patch ctx.proposal.patch)) [
    | inl e ↦ rw (e, evaluate, clean) (ground arith)
    | inr (findings, e) ↦
        rw (e, evaluate, clean) (ground (arith, findings_approve cfg ctx findings))
  ]

default_config-is_valid : is_valid default_config ≡ true
unfolding is_valid contains replace_char starts_with
default_config-is_valid = refl

eligible_parts :
    (ctx : PolicyContext)
    → eligible_auto_approve ctx default_config ≡ true
    → ((risk_order ctx.risk_level == 0) ≡ true) × (length ctx.changed_files ≤ 3)
unfolding eligible_auto_approve
eligible_parts ctx h = (ground arith, ground arith)

calm_parts :
    (cfg : PolicyConfig) (ctx : PolicyContext)
    → is_empty (escalations cfg ctx []) ≡ true
    → (trusted cfg ctx.classification ≡ true)
      × (is_empty (matching_paths ctx.changed_files cfg.ci_path_prefixes) ≡ true)
      × (is_empty (matching_paths ctx.changed_files cfg.escalation_paths) ≡ true)
      × (path_contains_markers ctx.changed_files cfg.security_path_markers ≡ false)
calm_parts cfg ctx h = ground (arith, no_escalations cfg ctx [], no_first_escalations cfg ctx [])

low_parts :
    (cats : List FileCategory) (scope : ChangeScope) (tools : List ToolRiskLevel)
    (files : List String)
    → (risk_order (classify_risk cats scope tools files) == 0) ≡ true
    → (all plain_category cats ≡ true) × (is_small scope ≡ true) × (any critical_path files ≡ false)
low_parts cats scope tools files h = ground (arith, classify_risk-low cats scope tools files)

small_spread :
    (files : List String) (small_max moderate_max : ℕ)
    → is_small (classify_scope files small_max moderate_max) ≡ true
    → distinct (directories files) ≤ 2
unfolding classify_scope
small_spread files small_max moderate_max h = ground arith

module _ (analyze_patch : String → Option (List IntegrityFinding)) (p : RepairProposal)
    (ev : EvaluationResult) (c : Option FailureClassification) (tools : List ToolRiskLevel) (n : ℕ)
    (approved : is_approve
        (evaluate analyze_patch default_config
          (build_policy_context default_config p ev c tools n)).outcome
      ≡ true) where
  abbrev context : PolicyContext
  context = build_policy_context default_config p ev c tools n

  approved_parts :
      (ev.passed ≡ true)
      × (clean analyze_patch p.patch ≡ true)
      × (is_empty (matching_paths p.files_changed default_config.forbidden_paths) ≡ true)
      × (is_empty (escalations default_config context []) ≡ true)
      × (eligible_auto_approve context default_config ≡ true)
  unfolding build_policy_context
  approved_parts =
      ground (arith, evaluate-approve analyze_patch default_config context default_config-is_valid)

  -- With the default configuration, an approved proposal passed its evaluation, weakens no check, has a
  -- classification that is confident and of no escalation category, is classified at LOW risk, and
  -- touches at most three files in at most two directories, all of them source, test or documentation
  -- and none on a critical, forbidden, security, CI or escalation path.
  pub approve_is_low_risk :
      (ev.passed ≡ true)
      × (clean analyze_patch p.patch ≡ true)
      × (trusted default_config c ≡ true)
      × ((risk_order context.risk_level == 0) ≡ true)
      × (length p.files_changed ≤ 3)
      × (distinct (directories p.files_changed) ≤ 2)
      × (all plain_category (map classify_file p.files_changed) ≡ true)
      × (any critical_path p.files_changed ≡ false)
      × (is_empty (matching_paths p.files_changed default_config.forbidden_paths) ≡ true)
      × (is_empty (matching_paths p.files_changed default_config.ci_path_prefixes) ≡ true)
      × (is_empty (matching_paths p.files_changed default_config.escalation_paths) ≡ true)
      × (path_contains_markers p.files_changed default_config.security_path_markers ≡ false)
  unfolding build_policy_context
  approve_is_low_risk =
      let (passed, pure, allowed, calm, eligible) = approved_parts in
      let (low_risk', few) = eligible_parts context eligible in
      let (known, outside_ci, elsewhere, unmarked) = calm_parts default_config context calm in
      let (plain, local, tame) =
        low_parts context.file_categories context.change_scope tools p.files_changed low_risk' in
      (
        passed,
        pure,
        known,
        low_risk',
        few,
        small_spread p.files_changed _ _ local,
        plain,
        tame,
        allowed,
        outside_ci,
        elsewhere,
        unmarked,
      )
