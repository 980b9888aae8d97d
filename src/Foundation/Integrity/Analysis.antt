-- ===== src/Foundation/Integrity/Analysis.antt =====
-- `analyze_patch` of ci_failure_orchestrator/foundation/verification_integrity.py. The regular expressions are
-- the fields of `Patterns`; a threshold, a decimal number that is compared, is a natural number. The
-- paths and the evidence of the findings are left out.
use ci_failure_orchestrator.Common.{
  ℕ, String, Bool, true, false, not, ◌&&◌, ◌||◌, List, [], ◌∷◌, ◌++◌, map, Option, none, some, any,
  count, is_empty, last_or, ltb, if◌then◌else◌, when, Chars, codes, same, contains,
}
use ci_failure_orchestrator.Foundation.Policy.Defs.{IntegrityFinding}
use ci_failure_orchestrator.Foundation.Integrity.Lines.{
  Marker, plus, minus, space, FileDiff, split_at, strip,
}
use ci_failure_orchestrator.Foundation.Integrity.Diff.{parse_unified_diff}
use ci_failure_orchestrator.Foundation.Integrity.Paths.{
  IntegrityCode, Patterns, all_but_last, any_suffix, assertion_removed, assertion_weakened,
  basename, check_suppressed_inline, ci_check_removed, ci_config_deleted, ci_environment_branch,
  ci_failure_ignored, code_value, coverage_threshold_lowered, exception_swallowed, is_build_script,
  is_ci_path, is_prose, norm, one_of, quality_gate_disabled, review_control_modified, severity,
  source_suffixes, test_case_removed, test_deselected, test_dirs, test_environment_special_case,
  test_expectation_changed, test_file_deleted, test_file_renamed_out_of_discovery, test_focused,
  test_result_overridden, test_skipped,
}

-- `net > 0` of `_net_added`.
abbrev pub net_added : (Chars → Bool) → FileDiff → Bool
net_added pattern f = ltb (count pattern f.removed) (count pattern f.added)

-- The numbers of a key, in the order of the lines.
abbrev pub values_of : Chars → List (Chars × ℕ) → List ℕ
values_of key [] = []
values_of key ((k, n) ∷ found) =
    let rest = values_of key found in if same k key then n ∷ rest else rest

abbrev pub minimum : ℕ → List ℕ → ℕ
minimum n [] = n
minimum n (m ∷ ms) = minimum (if ltb m n then m else n) ms

abbrev pub maximum : ℕ → List ℕ → ℕ
maximum n [] = n
maximum n (m ∷ ms) = maximum (if ltb n m then m else n) ms

-- `not new_values or min(new_values) < max(old_values)`.
abbrev pub values_lowered : List ℕ → List ℕ → Bool
values_lowered old [] = true
values_lowered [] (n ∷ new) = false
values_lowered (o ∷ old) (n ∷ new) = ltb (minimum n new) (maximum o old)

-- `"\n".join(lines)`.
abbrev pub join_lines : List Chars → Chars
join_lines [] = []
join_lines (l ∷ []) = l
join_lines (l ∷ m ∷ ls) = l ++ 10 ∷ join_lines (m ∷ ls)

module _ (re : Patterns) where
  unfoldable pub is_test_path : Chars → Bool
  is_test_path path =
      let segments = split_at b'/' (norm path) in
      re.test_basename (last_or [] segments) || any (one_of test_dirs) (all_but_last segments)

  unfoldable pub is_discoverable_test : Chars → Bool
  is_discoverable_test path =
      not (same (basename path) (codes "conftest.py")) && re.test_basename (basename path)

  unfoldable pub is_production_source : Chars → Bool
  is_production_source path = any_suffix source_suffixes (norm path) && not (is_test_path path)

  -- `_thresholds`: the matches of all lines; a key of the dictionary is a key of one of them.
  unfoldable pub thresholds : Bool → List Chars → List (Chars × ℕ)
  thresholds use_jest_keys [] = []
  thresholds use_jest_keys (l ∷ ls) =
      re.threshold_matches use_jest_keys l ++ thresholds use_jest_keys ls

  unfoldable pub threshold_lowered : FileDiff → Bool
  threshold_lowered f =
      let quality_config = re.quality_config_name (basename f.path) in
      let before = thresholds quality_config f.removed in
      let after = thresholds quality_config f.added in
      any (λ m. values_lowered (values_of m.0 before) (values_of m.0 after)) before

  -- The body of a broad `except` whose own line has none: the next line, if it is added too.
  abbrev pub next_body : Chars → List (Marker × Chars) → Chars → Chars
  next_body text ((plus, next) ∷ _) found =
      if re.swallow_body (strip next) then strip text ++ b' ' ∷ strip next else found
  next_body text _ found = found

  -- `_swallowing_excepts`: the text that is found, or none.
  unfoldable pub swallowing_excepts : List (Marker × Chars) → Chars
  swallowing_excepts [] = []
  swallowing_excepts ((minus, text) ∷ rest) = swallowing_excepts rest
  swallowing_excepts ((space, text) ∷ rest) = swallowing_excepts rest
  swallowing_excepts ((plus, text) ∷ rest) =
      let later = swallowing_excepts rest in
      elim (re.broad_except text) [
        | none ↦ if re.swallow_inline text then text else later
        | some body ↦
            if is_empty (strip body)
            then next_body text rest later
            else if re.swallow_body (strip body)
            then text
            else later
      ]

  -- A removed line with a check whose name is nowhere among the added lines.
  unfoldable pub check_removed : FileDiff → Bool
  check_removed f =
      any
        (λ l. elim (re.check_tool l) [
          | none ↦ false
          | some tool ↦ not (contains tool (join_lines f.added))
        ])
        f.removed

  -- A removed hook that is not added again.
  abbrev pub adds_hook : Chars → List Chars → Bool
  adds_hook hook = any λ l. elim (re.precommit_hook l) [ none ↦ false | some h ↦ same h hook ]

  unfoldable pub hook_removed : FileDiff → Bool
  hook_removed f =
      any
        (λ l. elim (re.precommit_hook l) [
          | none ↦ false
          | some hook ↦ not (adds_hook hook f.added)
        ])
        f.removed

  abbrev pub is_strong : Chars → Bool
  is_strong l = re.strong l && not (re.tautology l)

  abbrev pub weak_assertion : Chars → Bool
  weak_assertion l = re.assertion l && re.weak l

  abbrev pub strong_assertion : Chars → Bool
  strong_assertion l = re.assertion l && is_strong l

  -- The findings of a test file.
  unfoldable pub test_file_findings : FileDiff → List IntegrityCode
  test_file_findings f =
      when (ltb (count re.test_def f.added) (count re.test_def f.removed)) test_case_removed
      ++ when (ltb (count re.assertion f.added) (count re.assertion f.removed)) assertion_removed
      ++ when
          (net_added weak_assertion f
            && ltb (count strong_assertion f.added) (count strong_assertion f.removed))
          assertion_weakened
      ++ when (any re.assertion f.removed) test_expectation_changed
      ++ when (net_added re.exit_override f) test_result_overridden

  -- The findings on configuration, in their order.
  unfoldable pub config_findings : FileDiff → List IntegrityCode
  config_findings f =
      when (threshold_lowered f) coverage_threshold_lowered
      ++ when (is_build_script f.path && net_added re.ci_ignore f) ci_failure_ignored
      ++ when (is_ci_path f.path && check_removed f) ci_check_removed
      ++ when (re.quality_config_name (basename f.path) && net_added re.gate_disabled f)
          quality_gate_disabled
      ++ when (re.quality_config_name (basename f.path) && hook_removed f) quality_gate_disabled
      ++ when (net_added re.inline_suppression f) check_suppressed_inline

  unfoldable pub source_findings : FileDiff → List IntegrityCode
  source_findings f =
      when (not (is_empty (swallowing_excepts f.lines))) exception_swallowed
      ++ when (net_added re.test_runner_sniff f) test_environment_special_case
      ++ when (net_added re.ci_sniff f) ci_environment_branch

  -- The rest of `_analyze_file` for a file that is not deleted as a test or a CI configuration.
  unfoldable pub content_findings : FileDiff → List IntegrityCode
  content_findings f =
      when (net_added re.skip f) test_skipped
      ++ when (net_added re.focus f) test_focused
      ++ when (net_added re.deselect f) test_deselected
      ++ (if is_test_path f.path then test_file_findings f else [])
      ++ config_findings f
      ++ (if is_production_source f.path then source_findings f else [])

  -- `_analyze_file`.
  unfoldable pub analyze_file : FileDiff → List IntegrityCode
  analyze_file f =
      if is_prose f.path
      then []
      else when (re.review_control (norm f.path)) review_control_modified
        ++ (if f.deleted && is_test_path f.path
            then test_file_deleted ∷ []
            else when
                (not (is_empty f.renamed_from)
                  && is_discoverable_test f.renamed_from
                  && not (is_discoverable_test f.path))
                test_file_renamed_out_of_discovery
              ++ (if f.deleted && is_ci_path f.path
                  then ci_config_deleted ∷ []
                  else content_findings f))

  abbrev pub finding : IntegrityCode → IntegrityFinding
  finding code = record { code = code_value code; severity = severity code }

  unfoldable pub analyze_files : List FileDiff → List IntegrityFinding
  analyze_files [] = []
  analyze_files (f ∷ fs) = map finding (analyze_file f) ++ analyze_files fs

  -- `analyze_patch`, which raises no exception.
  unfoldable pub analyze_patch : String → Option (List IntegrityFinding)
  analyze_patch patch = some (analyze_files (parse_unified_diff patch))
