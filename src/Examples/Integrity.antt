-- ===== src/Examples/Integrity.antt =====
-- The theorems on the patch analysis at concrete patches.
use ci_failure_orchestrator.Common.{
  String, Bool, true, false, List, [], ◌∷◌, ◌++◌, map, none, some, ◌≡◌, refl, if◌then◌else◌, Chars,
  codes, starts_with, ends_with, contains, lower, lower_char, replace_char, same, is_space,
  is_blank, after_last_slash,
}
use ci_failure_orchestrator.Foundation.Models.{RepairProposal}
use ci_failure_orchestrator.Foundation.Policy.Defs.{PolicyContext, is_approve, default_config}
use ci_failure_orchestrator.Foundation.Policy.Context.{
  build_policy_context, matching_paths, path_contains_markers, hits, unique_codes, unique_rules,
}
use ci_failure_orchestrator.Foundation.Policy.Engine.{
  classification_escalations, first_escalations, last_escalations, escalations,
  eligible_auto_approve, evaluate_findings, evaluate,
}
use ci_failure_orchestrator.Foundation.Policy.Paths.Files.{
  classify_file, max_risk, strip_dot_slash, normalize_path, is_dependency, is_ci, is_migration,
  is_infrastructure, is_auth, is_security, is_test, is_documentation, is_source, is_configuration,
}
use ci_failure_orchestrator.Foundation.Policy.Paths.Risk.{
  classify_risk, critical_path, before_last_slash, distinct, directories, classify_scope,
}
use ci_failure_orchestrator.Foundation.Integrity.Lines.{
  before_char, split_at, strip, strip_left, strip_prefix, strip_right, Marker, plus, minus, space,
  FileDiff, new_file, files_of, hunk_counts, count_behind, range_at, number_at,
}
use ci_failure_orchestrator.Foundation.Integrity.Diff.{
  parse_line, header_line, new_path_line, hunk_line, split_lines, parse_lines, parse_unified_diff,
}
use ci_failure_orchestrator.Foundation.Integrity.Hunks.{outside, shown, with_hunk, hunk-roundtrip}
use ci_failure_orchestrator.Foundation.Integrity.Paths.{
  Patterns, is_prose, is_build_script, is_ci_path, norm, strip_dots,
}
use ci_failure_orchestrator.Foundation.Integrity.Analysis.{
  analyze_patch, analyze_files, analyze_file, check_removed, config_findings, content_findings,
  hook_removed, is_production_source, is_test_path, source_findings, swallowing_excepts,
  threshold_lowered, thresholds,
}
use ci_failure_orchestrator.Foundation.Integrity.Approved.{EachKeeps, approved-EachKeeps}
use ci_failure_orchestrator.Examples.Policy.{passing, sure, default_valid}

-- A removed line that looks like the header of a file.
abbrev hunk : List (Marker × Chars)
hunk = (minus, codes "-- a/tests/test_date.py") ∷ (plus, codes "x = 2") ∷ (space, []) ∷ []

abbrev header : Chars
header = codes " -3,2 +3,2 @@ def f():"

header_counts : hunk_counts (b'@' ∷ b'@' ∷ header) ≡ some (2, 2)
unfolding hunk_counts range_at number_at count_behind starts_with
header_counts = refl

abbrev date_file : FileDiff
date_file = new_file (codes "pkg/date.py")

hunk-roundtrip_example :
    files_of (
      parse_lines
        (outside [] date_file false 0 0 none false)
        ((b'@' ∷ b'@' ∷ header) ∷ map shown hunk ++ codes "diff --git a/x.py b/x.py" ∷ []))
    ≡ files_of (
        parse_lines
          (outside [] (with_hunk hunk date_file) true 0 0 none false)
          (codes "diff --git a/x.py b/x.py" ∷ []))
hunk-roundtrip_example =
    hunk-roundtrip hunk header (codes "diff --git a/x.py b/x.py" ∷ []) [] date_file false 0 0 none
      false header_counts

abbrev has : String → Chars → Bool
has s l = contains (codes s) l

abbrev never : Chars → Bool
never l = false

-- Patterns that look for single words.
abbrev words : Patterns
words = record {
  review_control = has "codeowners";
  test_basename = starts_with (codes "test_");
  quality_config_name = same (codes "pyproject.toml");
  test_def = has "def test";
  skip = has "skip";
  focus = has ".only";
  deselect = has "--deselect";
  assertion = has "assert";
  strong = has "==";
  tautology = never;
  weak = has "is not None";
  exit_override = has "exitstatus";
  ci_ignore = has "continue-on-error";
  check_tool = λ l. if contains (codes "pytest") l then some (codes "pytest") else none;
  gate_disabled = has "ignore_errors";
  precommit_hook = λ l. none;
  threshold_matches = λ jest l. [];
  inline_suppression = has "noqa";
  broad_except = λ l. if contains (codes "except:") l then some [] else none;
  swallow_body = same (codes "pass");
  swallow_inline = never;
  test_runner_sniff = has "PYTEST_CURRENT_TEST";
  ci_sniff = has "GITHUB_ACTIONS";
}

abbrev fix : RepairProposal
fix = record {
  run_id = "run_1";
  proposal_id = "p1";
  files_changed = "pkg/date.py" ∷ [];
  patch = "--- a/pkg/date.py\n+++ b/pkg/date.py\n@@ -1 +1 @@\n-x = 1\n+x = 2\n";
}

abbrev ctx : PolicyContext
ctx = build_policy_context default_config fix passing sure [] 1

fix_approved : is_approve (evaluate (analyze_patch words) default_config ctx).outcome ≡ true
unfolding evaluate build_policy_context is_blank matching_paths same normalize_path lower
    replace_char starts_with contains evaluate_findings escalations first_escalations unique_codes
    hits classify_file is_dependency after_last_slash ends_with is_space lower_char
    classification_escalations eligible_auto_approve last_escalations path_contains_markers
    unique_rules before_last_slash classify_risk classify_scope critical_path directories distinct
    is_auth is_ci is_configuration is_documentation is_infrastructure is_migration is_security
    is_source is_test max_risk strip_dot_slash analyze_patch analyze_files parse_unified_diff
    parse_lines split_lines parse_line header_line new_path_line hunk_line hunk_counts range_at
    count_behind number_at analyze_file is_prose check_removed config_findings content_findings
    hook_removed is_build_script is_ci_path is_production_source is_test_path norm source_findings
    strip_dots swallowing_excepts threshold_lowered thresholds before_char split_at strip strip_left
    strip_prefix strip_right
fix_approved = refl

approved-EachKeeps_example : EachKeeps words (parse_unified_diff ctx.proposal.patch)
approved-EachKeeps_example = approved-EachKeeps words default_config ctx default_valid fix_approved
