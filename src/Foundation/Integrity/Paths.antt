-- ===== src/Foundation/Integrity/Paths.antt =====
-- What foundation/verification_integrity.py looks for: the codes of its findings, its regular expressions as the
-- fields of `Patterns`, and its tests on paths.
use ci_failure_orchestrator.Common.{
  ℕ, String, Bool, ◌&&◌, ◌||◌, List, [], ◌∷◌, Option, any, last_or, ◌==◌, if◌then◌else◌, Chars,
  codes, same, starts_with, ends_with, lower, replace_char,
}
use ci_failure_orchestrator.Foundation.Policy.Defs.{IntegritySeverity, rejecting, escalating}
use ci_failure_orchestrator.Foundation.Integrity.Lines.{split_at}

pub data IntegrityCode : Type 0 where
  test_file_deleted test_file_renamed_out_of_discovery test_case_removed test_skipped test_focused
        test_deselected assertion_removed assertion_weakened test_result_overridden
        coverage_threshold_lowered ci_config_deleted ci_check_removed ci_failure_ignored
        quality_gate_disabled review_control_modified exception_swallowed
        test_environment_special_case test_expectation_changed check_suppressed_inline
        ci_environment_branch :
      IntegrityCode

-- `_SEVERITY`.
abbrev pub severity : IntegrityCode → IntegritySeverity
severity test_expectation_changed = escalating
severity check_suppressed_inline = escalating
severity ci_environment_branch = escalating
severity _ = rejecting

-- `code.value`.
abbrev pub code_value : IntegrityCode → String
code_value test_file_deleted = "TEST_FILE_DELETED"
code_value test_file_renamed_out_of_discovery = "TEST_FILE_RENAMED_OUT_OF_DISCOVERY"
code_value test_case_removed = "TEST_CASE_REMOVED"
code_value test_skipped = "TEST_SKIPPED"
code_value test_focused = "TEST_FOCUSED"
code_value test_deselected = "TEST_DESELECTED"
code_value assertion_removed = "ASSERTION_REMOVED"
code_value assertion_weakened = "ASSERTION_WEAKENED"
code_value test_result_overridden = "TEST_RESULT_OVERRIDDEN"
code_value coverage_threshold_lowered = "COVERAGE_THRESHOLD_LOWERED"
code_value ci_config_deleted = "CI_CONFIG_DELETED"
code_value ci_check_removed = "CI_CHECK_REMOVED"
code_value ci_failure_ignored = "CI_FAILURE_IGNORED"
code_value quality_gate_disabled = "QUALITY_GATE_DISABLED"
code_value review_control_modified = "REVIEW_CONTROL_MODIFIED"
code_value exception_swallowed = "EXCEPTION_SWALLOWED"
code_value test_environment_special_case = "TEST_ENVIRONMENT_SPECIAL_CASE"
code_value test_expectation_changed = "TEST_EXPECTATION_CHANGED"
code_value check_suppressed_inline = "CHECK_SUPPRESSED_INLINE"
code_value ci_environment_branch = "CI_ENVIRONMENT_BRANCH"

-- What the module's regular expressions say of a line or a name; `search` and `match` are tests.
pub record Patterns : Type 0 where
  pub review_control : Chars → Bool
  pub test_basename : Chars → Bool
  pub quality_config_name : Chars → Bool
  pub test_def : Chars → Bool
  pub skip : Chars → Bool
  pub focus : Chars → Bool
  pub deselect : Chars → Bool
  pub assertion : Chars → Bool
  pub strong : Chars → Bool
  pub tautology : Chars → Bool
  pub weak : Chars → Bool
  pub exit_override : Chars → Bool
  pub ci_ignore : Chars → Bool
  -- The first group of a match.
  pub check_tool : Chars → Option Chars
  pub gate_disabled : Chars → Bool
  pub precommit_hook : Chars → Option Chars
  -- The keys and the numbers of the matches in a line; with the keys of jest if asked for.
  pub threshold_matches : Bool → Chars → List (Chars × ℕ)
  pub inline_suppression : Chars → Bool
  -- The group `body`.
  pub broad_except : Chars → Option Chars
  pub swallow_body : Chars → Bool
  pub swallow_inline : Chars → Bool
  pub test_runner_sniff : Chars → Bool
  pub ci_sniff : Chars → Bool

-- `_norm`.
unfoldable pub strip_dots : Chars → Chars
strip_dots [] = []
strip_dots (c ∷ []) = c ∷ []
strip_dots (c ∷ d ∷ s) =
    let rest = strip_dots s in if c == b'.' && d == b'/' then rest else c ∷ d ∷ s

unfoldable pub norm : Chars → Chars
norm path = lower (strip_dots (replace_char 0x5c b'/' path))

abbrev pub one_of : List String → Chars → Bool
one_of names s = any (λ n. same s (codes n)) names

-- `p.rsplit("/", 1)[-1]` of the normal path.
abbrev pub basename : Chars → Chars
basename path = last_or [] (split_at b'/' (norm path))

-- `segments[:-1]`.
abbrev pub all_but_last : List Chars → List Chars
all_but_last [] = []
all_but_last (s ∷ []) = []
all_but_last (s ∷ t ∷ rest) = s ∷ all_but_last (t ∷ rest)

abbrev pub test_dirs : List String
test_dirs = "tests" ∷ "test" ∷ "__tests__" ∷ "spec" ∷ "testing" ∷ []

unfoldable pub is_ci_path : Chars → Bool
is_ci_path path =
    starts_with (codes ".github/workflows/") (norm path)
    || starts_with (codes ".circleci/") (norm path)
    || one_of
        ("jenkinsfile" ∷ ".gitlab-ci.yml" ∷ "azure-pipelines.yml" ∷ "bitbucket-pipelines.yml"
          ∷ ".travis.yml" ∷ [])
        (basename path)

unfoldable pub is_build_script : Chars → Bool
is_build_script path =
    is_ci_path path
    || one_of ("makefile" ∷ "justfile" ∷ "tox.ini" ∷ "noxfile.py" ∷ "package.json" ∷ [])
        (basename path)
    || ends_with (codes ".sh") (basename path)
    || ends_with (codes ".ps1") (basename path)

abbrev pub any_suffix : List String → Chars → Bool
any_suffix suffixes s = any (λ t. ends_with (codes t) s) suffixes

unfoldable pub is_prose : Chars → Bool
is_prose path =
    any_suffix (".md" ∷ ".rst" ∷ ".txt" ∷ ".adoc" ∷ []) (norm path)
    || starts_with (codes "docs/") (norm path)

abbrev pub source_suffixes : List String
source_suffixes =
    ".py" ∷ ".js" ∷ ".jsx" ∷ ".ts" ∷ ".tsx" ∷ ".mjs" ∷ ".cjs" ∷ ".go" ∷ ".java" ∷ ".kt" ∷ ".cs"
    ∷ ".rb" ∷ ".rs" ∷ []
