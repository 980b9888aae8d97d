-- ===== src/Foundation/Policy/Engine.antt =====
-- The rules of the policy gate (ci_failure_orchestrator/foundation/policy.py), in their precedence:
-- hard reject, escalate, allow, default. The patch analysis of foundation/verification_integrity.py
-- is a parameter that may raise; evidence lines and explanations are left out.
use ci_failure_orchestrator.Common.{
  String, codes, is_blank, Bool, not, ◌&&◌, ◌||◌, List, [], ◌∷◌, ◌++◌, Option, none, some, map,
  length, any, all, select, when, is_empty, leb, ltb, ◌==◌, str_eq, if◌then◌else◌,
}
use ci_failure_orchestrator.Foundation.Models.{FailureClassification}
use ci_failure_orchestrator.Foundation.Policy.Paths.Files.{
  ci, dependency, security, auth, infrastructure, migration, unknown, is_small, is_broad,
  GovernanceRiskLevel, medium, high, critical, risk_order, max_risk,
}
use ci_failure_orchestrator.Foundation.Policy.Paths.Risk.{has_category, is_restricted}
use ci_failure_orchestrator.Foundation.Policy.Defs.{
  IntegrityFinding, Rule, Reason, PolicyDecision, PolicyContext, PolicyConfig, is_rejecting,
  is_escalating, approve, reject, escalate, evaluation_must_pass, forbidden_path_rule,
  security_sensitive, ci_workflow, low_risk_auto_approve, default_escalation, dependency_change,
  restricted_tool, auth_change, broad_scope, high_retry_count, invalid_proposal, engine_failure,
  failure_category_rule, low_confidence, escalation_path, infra_or_migration, verification_weakened,
  verification_change_review, evaluation_failed, proposal_invalid, forbidden_path,
  classification_missing, low_classification_confidence, auth_code_modified,
  security_sensitive_path, security_category_file, ci_workflow_modified,
  dependency_manifest_or_lockfile, infra_or_migration_file, escalation_path_prefix,
  restricted_tool_with_non_small_scope, broad_change_scope, many_attempts, unknown_file_category,
  low_risk, default_conservative, engine_error, weakened, verification_change, failure_category,
}
use ci_failure_orchestrator.Foundation.Policy.Context.{
  hits, matching_paths, path_contains_markers, unique_codes, unique_rules,
}

-- An escalation: the rule that matched and the reason that it adds.
abbrev pub Escalation : Type 0
Escalation = Rule × Reason

unfoldable pub classification_escalations :
    PolicyConfig → Option FailureClassification → List Escalation
classification_escalations cfg none = (low_confidence, classification_missing) ∷ []
classification_escalations cfg (some c) =
    when (any (str_eq c.category) cfg.escalation_failure_categories)
      (failure_category_rule, failure_category c.category)
    ++ when (ltb c.confidence cfg.min_classification_confidence)
        (low_confidence, low_classification_confidence)

-- The escalations of step 2 up to the escalation paths, in the order of the source.
unfoldable pub first_escalations :
    PolicyConfig → PolicyContext → List IntegrityFinding → List Escalation
unfolding classification_escalations
first_escalations cfg ctx findings =
    let auth_hits = not (is_empty (hits auth ctx.changed_files ctx.file_categories)) in
    let marked = path_contains_markers ctx.changed_files cfg.security_path_markers in
    let secret_hits = not (is_empty (hits security ctx.changed_files ctx.file_categories)) in
    let ci_hits =
      not (is_empty (hits ci ctx.changed_files ctx.file_categories))
      || not (is_empty (matching_paths ctx.changed_files cfg.ci_path_prefixes)) in
    let dep_hits = not (is_empty (hits dependency ctx.changed_files ctx.file_categories)) in
    let infra =
      has_category infrastructure ctx.file_categories
      || has_category migration ctx.file_categories in
    map (λ c. (verification_change_review, verification_change c))
      (unique_codes (map (λ (f : IntegrityFinding). f.code) (select is_escalating findings)))
    ++ (classification_escalations cfg ctx.classification
        ++ (when auth_hits (auth_change, auth_code_modified)
            ++ (when (not auth_hits && marked) (security_sensitive, security_sensitive_path)
                ++ (when (secret_hits && (auth_hits || not marked))
                      (security_sensitive, security_category_file)
                    ++ (when ci_hits (ci_workflow, ci_workflow_modified)
                        ++ (when dep_hits (dependency_change, dependency_manifest_or_lockfile)
                            ++ when infra (infra_or_migration, infra_or_migration_file)))))))

-- The escalations behind the escalation paths.
unfoldable pub last_escalations : PolicyConfig → PolicyContext → List Escalation
last_escalations cfg ctx =
    when
      (cfg.escalate_on_restricted_tools
        && any is_restricted ctx.tool_risk_levels
        && not (is_small ctx.change_scope))
      (restricted_tool, restricted_tool_with_non_small_scope)
    ++ (when (is_broad ctx.change_scope) (broad_scope, broad_change_scope)
        ++ (when
              (cfg.escalate_when_attempts_at_max
                && leb cfg.max_attempts_for_escalation ctx.attempt_count)
              (high_retry_count, many_attempts)
            ++ when (has_category unknown ctx.file_categories)
                (default_escalation, unknown_file_category)))

unfoldable pub escalations : PolicyConfig → PolicyContext → List IntegrityFinding → List Escalation
escalations cfg ctx findings =
    let before = first_escalations cfg ctx findings in
    before
    ++ (when
          (is_empty before
            && not (is_empty (matching_paths ctx.changed_files cfg.escalation_paths)))
          (escalation_path, escalation_path_prefix)
        ++ last_escalations cfg ctx)

abbrev one_of_levels : GovernanceRiskLevel → List GovernanceRiskLevel → Bool
one_of_levels r = any (λ q. risk_order r == risk_order q)

-- `_eligible_auto_approve`.
unfoldable pub eligible_auto_approve : PolicyContext → PolicyConfig → Bool
eligible_auto_approve ctx cfg =
    one_of_levels ctx.risk_level cfg.auto_approve_risk_levels
    && leb (length ctx.changed_files) cfg.auto_approve_max_files
    && is_small ctx.change_scope
    && not (is_empty ctx.file_categories)
    && all (λ c. has_category c cfg.auto_approve_categories) ctx.file_categories

rejecting_by : Rule → List Rule → List Reason → GovernanceRiskLevel → PolicyDecision
rejecting_by rule violations reasons risk = record {
  outcome = reject;
  reasons = reasons;
  matched_rules = rule ∷ [];
  violations = violations;
  risk_level = risk;
}

-- The patch analysis, escalation, approval and default of `_evaluate`, given the findings.
unfoldable pub evaluate_findings :
    PolicyConfig → PolicyContext → List IntegrityFinding → PolicyDecision
unfolding rejecting_by
evaluate_findings cfg ctx findings =
    let weakening = select is_rejecting findings in
    let raised = escalations cfg ctx findings in
    if not (is_empty weakening)
    then rejecting_by verification_weakened
        (map (λ (f : IntegrityFinding). verification_weakened) weakening)
        (map weakened (unique_codes (map (λ (f : IntegrityFinding). f.code) weakening))) critical
    else if not (is_empty raised)
    then record {
      outcome = escalate;
      reasons = map (λ (e : Escalation). e.1) raised;
      matched_rules = unique_rules (map (λ (e : Escalation). e.0) raised);
      violations = [];
      risk_level = max_risk ctx.risk_level high;
    }
    else if eligible_auto_approve ctx cfg
    then record {
      outcome = approve;
      reasons = low_risk ∷ [];
      matched_rules = low_risk_auto_approve ∷ [];
      violations = [];
      risk_level = ctx.risk_level;
    }
    else record {
      outcome = cfg.default_outcome;
      reasons = default_conservative ∷ [];
      matched_rules = default_escalation ∷ [];
      violations = [];
      risk_level = max_risk ctx.risk_level medium;
    }

-- The decision of `evaluate` when `_evaluate` raises.
abbrev pub fail_closed : PolicyDecision
fail_closed = record {
  outcome = escalate;
  reasons = engine_error ∷ [];
  matched_rules = engine_failure ∷ [];
  violations = engine_failure ∷ [];
  risk_level = high;
}

-- `analyze_patch`; `none` is an exception.
module _ (analyze_patch : String → Option (List IntegrityFinding)) where
  -- `StaticPolicyEngine.evaluate` with `_evaluate`.
  unfoldable pub evaluate : PolicyConfig → PolicyContext → PolicyDecision
  unfolding rejecting_by
  evaluate cfg ctx =
      if not ctx.evaluation.passed
      then rejecting_by evaluation_must_pass (evaluation_must_pass ∷ []) (evaluation_failed ∷ [])
          (max_risk ctx.risk_level high)
      else if is_empty ctx.changed_files || is_blank (codes ctx.proposal.patch)
      then rejecting_by invalid_proposal (invalid_proposal ∷ []) (proposal_invalid ∷ []) high
      else if not (is_empty (matching_paths ctx.changed_files cfg.forbidden_paths))
      then rejecting_by forbidden_path_rule (forbidden_path_rule ∷ []) (forbidden_path ∷ [])
          critical
      else elim (analyze_patch ctx.proposal.patch) [
        | none ↦ fail_closed
        | some findings ↦ evaluate_findings cfg ctx findings
      ]
