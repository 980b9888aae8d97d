-- ===== src/Foundation/Integrity/Kept.antt =====
-- What a file of a patch keeps in which the analysis of foundation/verification_integrity.py finds nothing.
use ci_failure_orchestrator.Common.{
  ◌≤◌, Bool, true, false, not, ◌&&◌, ◌||◌, any, count, is_empty, if◌then◌else◌, Chars, ◌≡◌, refl,
  sym, ◌∙◌, arith, emptiness, ltb,
}
use ci_failure_orchestrator.Foundation.Integrity.Lines.{FileDiff}
use ci_failure_orchestrator.Foundation.Integrity.Paths.{
  Patterns, norm, is_prose, is_ci_path, is_build_script, basename,
}
use ci_failure_orchestrator.Foundation.Integrity.Analysis.{
  net_added, is_test_path, is_discoverable_test, is_production_source, threshold_lowered,
  check_removed, hook_removed, swallowing_excepts, test_file_findings, config_findings,
  source_findings, content_findings, analyze_file, weak_assertion, strong_assertion,
}

-- At most as many of the added lines as of the removed lines match.
abbrev pub NotMore : (Chars → Bool) → FileDiff → Type 0
NotMore pattern f = count pattern f.added ≤ count pattern f.removed

module _ (re : Patterns) where
  -- The file was renamed so that no runner finds it.
  abbrev pub hidden : FileDiff → Bool
  hidden f =
      not (is_empty f.renamed_from)
      && is_discoverable_test re f.renamed_from
      && not (is_discoverable_test re f.path)

  -- A file of a patch in which the analysis finds nothing.
  pub record KeepsChecks (f : FileDiff) : Type 0 where
    pub not_deleted : (f.deleted && (is_test_path re f.path || is_ci_path f.path)) ≡ false
    pub not_hidden : hidden f ≡ false
    pub controls_untouched : re.review_control (norm f.path) ≡ false
    pub no_skips : NotMore re.skip f
    pub no_focus : NotMore re.focus f
    pub no_deselection : NotMore re.deselect f
    pub tests_kept :
        is_test_path re f.path ≡ true
        → (count re.test_def f.removed ≤ count re.test_def f.added)
          × (any re.assertion f.removed ≡ false)
          × NotMore re.exit_override f
    pub thresholds_kept : threshold_lowered re f ≡ false
    pub failures_count : is_build_script f.path ≡ true → NotMore re.ci_ignore f
    pub checks_kept : is_ci_path f.path ≡ true → check_removed re f ≡ false
    pub nothing_swallowed :
        is_production_source re f.path ≡ true
        → (is_empty (swallowing_excepts re f.lines) ≡ true) × NotMore re.test_runner_sniff f

  -- The analysis of a file finds nothing exactly if each of its tests fails.
  content-empty :
      (f : FileDiff)
      → is_empty (content_findings re f) ≡ (
          not (net_added re.skip f)
          && not (net_added re.focus f)
          && not (net_added re.deselect f)
          && (if is_test_path re f.path then is_empty (test_file_findings re f) else true)
          && is_empty (config_findings re f)
          && (if is_production_source re f.path then is_empty (source_findings re f) else true))
  unfolding content_findings
  content-empty f = simp emptiness refl

  tests-empty :
      (f : FileDiff)
      → is_empty (test_file_findings re f) ≡ (
          not (ltb (count re.test_def f.added) (count re.test_def f.removed))
          && not (ltb (count re.assertion f.added) (count re.assertion f.removed))
          && not (
              net_added (weak_assertion re) f
              && ltb (count (strong_assertion re) f.added) (count (strong_assertion re) f.removed))
          && not (any re.assertion f.removed)
          && not (net_added re.exit_override f))
  unfolding test_file_findings
  tests-empty f = simp emptiness refl

  config-empty :
      (f : FileDiff)
      → is_empty (config_findings re f) ≡ (
          not (threshold_lowered re f)
          && not (is_build_script f.path && net_added re.ci_ignore f)
          && not (is_ci_path f.path && check_removed re f)
          && not (re.quality_config_name (basename f.path) && net_added re.gate_disabled f)
          && not (re.quality_config_name (basename f.path) && hook_removed re f)
          && not (net_added re.inline_suppression f))
  unfolding config_findings
  config-empty f = simp emptiness refl

  source-empty :
      (f : FileDiff)
      → is_empty (source_findings re f) ≡ (
          is_empty (swallowing_excepts re f.lines)
          && not (net_added re.test_runner_sniff f)
          && not (net_added re.ci_sniff f))
  unfolding source_findings
  source-empty f = simp emptiness (ground arith)

  file-empty :
      (f : FileDiff)
      → is_empty (analyze_file re f) ≡ (
          if is_prose f.path
          then true
          else not (re.review_control (norm f.path))
            && (if f.deleted && is_test_path re f.path
                then false
                else not (hidden f)
                  && (if f.deleted && is_ci_path f.path
                      then false
                      else is_empty (content_findings re f))))
  unfolding analyze_file
  file-empty f = simp emptiness refl

  -- The tests on the file as a whole, and then those on its content.
  file_parts :
      (f : FileDiff)
      → is_prose f.path ≡ false
      → is_empty (analyze_file re f) ≡ true
      → (re.review_control (norm f.path) ≡ false)
        × ((f.deleted && (is_test_path re f.path || is_ci_path f.path)) ≡ false)
        × (hidden f ≡ false)
        × (is_empty (content_findings re f) ≡ true)
  file_parts f prose h =
      by_tests (re.review_control (norm f.path)) f.deleted (is_test_path re f.path)
        (is_ci_path f.path) (hidden f) (is_empty (content_findings re f))
        (sym (rw (file-empty f) (rw prose refl)) ∙ h)
    where
      by_tests :
          (review deleted test ci gone rest : Bool)
          → (not review
              && (if deleted && test
                  then false
                  else not gone && (if deleted && ci then false else rest)))
            ≡ true
          → (review ≡ false) × ((deleted && (test || ci)) ≡ false) × (gone ≡ false) × (rest ≡ true)
      by_tests review deleted test ci gone rest e =
          (ground arith, ground arith, ground arith, ground arith)

  not_more :
      (pattern : Chars → Bool) (f : FileDiff) → net_added pattern f ≡ false → NotMore pattern f
  not_more pattern f h = ground arith

  content_parts :
      (f : FileDiff)
      → is_empty (content_findings re f) ≡ true
      → (net_added re.skip f ≡ false)
        × (net_added re.focus f ≡ false)
        × (net_added re.deselect f ≡ false)
        × ((if is_test_path re f.path then is_empty (test_file_findings re f) else true) ≡ true)
        × (is_empty (config_findings re f) ≡ true)
        × ((if is_production_source re f.path then is_empty (source_findings re f) else true)
            ≡ true)
  content_parts f h =
      by_tests (net_added re.skip f) (net_added re.focus f) (net_added re.deselect f)
        (if is_test_path re f.path then is_empty (test_file_findings re f) else true)
        (is_empty (config_findings re f))
        (if is_production_source re f.path then is_empty (source_findings re f) else true)
        (sym (content-empty f) ∙ h)
    where
      by_tests :
          (a b c d e g : Bool)
          → (not a && not b && not c && d && e && g) ≡ true
          → (a ≡ false) × (b ≡ false) × (c ≡ false) × (d ≡ true) × (e ≡ true) × (g ≡ true)
      by_tests a b c d e g h =
          (ground arith, ground arith, ground arith, ground arith, ground arith, ground arith)

  keeps_tests :
      (f : FileDiff)
      → is_empty (test_file_findings re f) ≡ true
      → (count re.test_def f.removed ≤ count re.test_def f.added)
        × (any re.assertion f.removed ≡ false)
        × NotMore re.exit_override f
  keeps_tests f h =
      (ground (arith, tests-empty f), ground (arith, tests-empty f), ground (arith, tests-empty f))

  config_parts :
      (f : FileDiff)
      → is_empty (config_findings re f) ≡ true
      → (threshold_lowered re f ≡ false)
        × ((is_build_script f.path && net_added re.ci_ignore f) ≡ false)
        × ((is_ci_path f.path && check_removed re f) ≡ false)
  config_parts f h =
      by_tests (threshold_lowered re f) (is_build_script f.path && net_added re.ci_ignore f)
        (is_ci_path f.path && check_removed re f) _ _ _ (sym (config-empty f) ∙ h)
    where
      by_tests :
          (a b c d e g : Bool)
          → (not a && not b && not c && not d && not e && not g) ≡ true
          → (a ≡ false) × (b ≡ false) × (c ≡ false)
      by_tests a b c d e g h = (ground arith, ground arith, ground arith)

  keeps_source :
      (f : FileDiff)
      → is_empty (source_findings re f) ≡ true
      → (is_empty (swallowing_excepts re f.lines) ≡ true) × NotMore re.test_runner_sniff f
  keeps_source f h = (ground (arith, source-empty f), ground (arith, source-empty f))

  pub file-KeepsChecks :
      (f : FileDiff) → is_prose f.path ≡ false → is_empty (analyze_file re f) ≡ true → KeepsChecks f
  file-KeepsChecks f prose h =
      let (controls, kept, found_still, content) = file_parts f prose h in
      let (skips, focus, deselection, tests, config, source) = content_parts f content in
      let (thresholds, failures, checks) = config_parts f config in
      record {
        not_deleted = kept;
        not_hidden = found_still;
        controls_untouched = controls;
        no_skips = not_more re.skip f skips;
        no_focus = not_more re.focus f focus;
        no_deselection = not_more re.deselect f deselection;
        tests_kept = λ t. keeps_tests f (sym (rw t refl) ∙ tests);
        thresholds_kept = thresholds;
        failures_count = λ t. not_more re.ci_ignore f (sym (rw t refl) ∙ failures);
        checks_kept = λ t. sym (rw t refl) ∙ checks;
        nothing_swallowed = λ t. keeps_source f (sym (rw t refl) ∙ source);
      }
