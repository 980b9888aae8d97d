-- ===== src/Foundation/Integrity/Approved.antt =====
-- What a patch does not do that the policy gate approves: the patch analysis of
-- foundation/verification_integrity.py behind StaticPolicyEngine of foundation/policy.py.
use ci_failure_orchestrator.Common.{
  Bool, true, false, not, ◌&&◌, List, [], ◌∷◌, map, is_empty, is_empty-append, is_empty-map,
  and-both, codes, is_blank, ◌≡◌, sym, ◌∙◌, arith,
}
use ci_failure_orchestrator.Foundation.Policy.Defs.{
  PolicyConfig, PolicyContext, is_valid, is_approve,
}
use ci_failure_orchestrator.Foundation.Policy.Context.{matching_paths}
use ci_failure_orchestrator.Foundation.Policy.Engine.{evaluate, escalations, eligible_auto_approve}
use ci_failure_orchestrator.Foundation.Policy.Gate.{clean, evaluate-approve}
use ci_failure_orchestrator.Foundation.Integrity.Lines.{FileDiff}
use ci_failure_orchestrator.Foundation.Integrity.Diff.{parse_unified_diff}
use ci_failure_orchestrator.Foundation.Integrity.Paths.{Patterns, is_prose}
use ci_failure_orchestrator.Foundation.Integrity.Analysis.{
  analyze_file, finding, analyze_files, analyze_patch,
}
use ci_failure_orchestrator.Foundation.Integrity.Kept.{KeepsChecks, file-KeepsChecks}

module _ (re : Patterns) where
  -- Each file of a diff but the prose keeps its checks.
  abbrev pub EachKeeps : List FileDiff → Type 0
  EachKeeps [] = Unit
  EachKeeps (f ∷ fs) = (is_prose f.path ≡ false → KeepsChecks re f) × EachKeeps fs

  files-EachKeeps : (fs : List FileDiff) → is_empty (analyze_files re fs) ≡ true → EachKeeps fs
  unfolding analyze_files
  files-EachKeeps [] h = tt
  files-EachKeeps (f ∷ fs) h =
      let parts =
        and-both (is_empty (map (finding re) (analyze_file re f))) (
          sym (is_empty-append (map (finding re) (analyze_file re f)) (analyze_files re fs)) ∙ h) in
      (
        λ prose.
            file-KeepsChecks re f prose
              (sym (is_empty-map (finding re) (analyze_file re f)) ∙ parts.0),
        files-EachKeeps fs parts.1,
      )

  -- A proposal that the gate approves under a valid configuration, with this patch analysis: in each file
  -- of its diff, but for prose, it deletes no test and no CI configuration, hides no test from the
  -- runner, touches no review control, adds no more skips, focused or deselected tests than it removes,
  -- removes no assertion of a test and no test case that it does not replace, lowers no threshold,
  -- lets no more failures of CI be ignored, removes no check from CI, swallows no exception in
  -- production code and looks no more for the test runner there.
  pub approved-EachKeeps :
      (cfg : PolicyConfig) (ctx : PolicyContext)
      → is_valid cfg ≡ true
      → is_approve (evaluate (analyze_patch re) cfg ctx).outcome ≡ true
      → EachKeeps (parse_unified_diff ctx.proposal.patch)
  unfolding analyze_patch
  approved-EachKeeps cfg ctx v a = files-EachKeeps (parse_unified_diff ctx.proposal.patch) (
      fifth ctx.evaluation.passed (not (is_empty ctx.changed_files))
        (not (is_blank (codes ctx.proposal.patch)))
        (is_empty (matching_paths ctx.changed_files cfg.forbidden_paths))
        (clean (analyze_patch re) ctx.proposal.patch) (is_empty (escalations cfg ctx []))
        (eligible_auto_approve ctx cfg) (sym (evaluate-approve (analyze_patch re) cfg ctx v) ∙ a))
    where
      fifth : (a b c d e g i : Bool) → (a && b && c && d && e && g && i) ≡ true → e ≡ true
      fifth a b c d e g i h = ground arith
