-- ===== src/Foundation/Policy/Context.antt =====
-- The context of a policy decision and the matching of its paths: `build_policy_context` and the helpers of
-- StaticPolicyEngine (ci_failure_orchestrator/foundation/policy.py).
use ci_failure_orchestrator.Common.{
  ℕ, String, Chars, same, starts_with, contains, Bool, not, ◌||◌, List, [], ◌∷◌, Option, map, any,
  select, ◌==◌, str_eq, if◌then◌else◌,
}
use ci_failure_orchestrator.Foundation.Models.{
  ToolRiskLevel, FailureClassification, RepairProposal, EvaluationResult,
}
use ci_failure_orchestrator.Foundation.Policy.Paths.Files.{
  FileCategory, is_category, normalize_path, classify_file,
}
use ci_failure_orchestrator.Foundation.Policy.Paths.Risk.{classify_scope, classify_risk}
use ci_failure_orchestrator.Foundation.Policy.Defs.{Rule, PolicyContext, PolicyConfig, rule_number}

unfoldable pub build_policy_context :
    PolicyConfig
    → RepairProposal
    → EvaluationResult
    → Option FailureClassification
    → List ToolRiskLevel
    → ℕ
    → PolicyContext
build_policy_context cfg proposal evaluation classification tools attempts =
    let files = proposal.files_changed in
    let categories = map classify_file files in
    let scope = classify_scope files cfg.small_scope_max_files cfg.moderate_scope_max_files in
    record {
      proposal = proposal;
      evaluation = evaluation;
      classification = classification;
      changed_files = files;
      tool_risk_levels = tools;
      attempt_count = attempts;
      file_categories = categories;
      change_scope = scope;
      risk_level = classify_risk categories scope tools files;
    }

-- One file against one pattern, in `_matching_paths`.
path_matches : Chars → String → Bool
path_matches nf pattern =
    let p = normalize_path pattern in same nf p || starts_with p nf || contains p nf

-- `_matching_paths`.
unfoldable pub matching_paths : List String → List String → List String
unfolding path_matches
matching_paths files patterns = select (λ f. any (path_matches (normalize_path f)) patterns) files

-- `_path_contains_markers`.
unfoldable pub path_contains_markers : List String → List String → Bool
path_contains_markers files markers =
    any (λ f. any (λ m. contains (normalize_path m) (normalize_path f)) markers) files

-- `[f for f, c in zip(changed_files, file_categories) if c is ...]`.
unfoldable pub hits : FileCategory → List String → List FileCategory → List String
hits c (f ∷ fs) (d ∷ ds) = let rest = hits c fs ds in if is_category c d then f ∷ rest else rest
hits c _ _ = []

-- `dict.fromkeys`: the first of each.
unfoldable pub unique_codes : List String → List String
unique_codes [] = []
unique_codes (c ∷ cs) = c ∷ select (λ d. not (str_eq c d)) (unique_codes cs)

unfoldable pub unique_rules : List Rule → List Rule
unique_rules [] = []
unique_rules (r ∷ rs) = r ∷ select (λ q. not (rule_number r == rule_number q)) (unique_rules rs)
