-- ===== src/Foundation/Policy/Paths/Risk.antt =====
-- The scope and the risk of a change in ci_failure_orchestrator/foundation/policy.py: `classify_scope` and
-- `classify_risk`.
use ci_failure_orchestrator.Common.{
  ℕ, suc, String, Chars, codes, same, starts_with, contains, Bool, true, false, not, ◌&&◌, ◌||◌,
  List, [], ◌∷◌, map, length, any, all, select, ◌≡◌, refl, arith, leb, ◌==◌, if◌then◌else◌,
}
use ci_failure_orchestrator.Foundation.Models.{ToolRiskLevel, restricted}
use ci_failure_orchestrator.Foundation.Policy.Paths.Files.{
  ChangeScope, FileCategory, GovernanceRiskLevel, auth, broad, ci, critical, dependency,
  documentation, high, infrastructure, is_broad, is_category, is_small, low, medium, migration,
  moderate, normalize_path, risk_order, security, small, source, test, unknown,
}

-- `p.rsplit("/", 1)[0]` of a text with a `/`.
unfoldable pub before_last_slash : Chars → Chars
before_last_slash [] = []
before_last_slash (c ∷ s) = if any (λ x. x == b'/') s then c ∷ before_last_slash s else []

-- The number of elements of a set of texts.
unfoldable pub distinct : List Chars → ℕ
distinct [] = 0
distinct (t ∷ ts) = let rest = distinct ts in if any (same t) ts then rest else suc rest

-- `{... for f in files if "/" in ...}`.
unfoldable pub directories : List String → List Chars
directories files =
    map before_last_slash (select (λ p. any (λ x. x == b'/') p) (map normalize_path files))

-- The numbers of files and directories decide; no file at all is BROAD.
unfoldable pub classify_scope : List String → ℕ → ℕ → ChangeScope
classify_scope files small_max moderate_max =
    let n = length files in
    let dirs = distinct (directories files) in
    if n == 0
    then broad
    else if leb n small_max && leb dirs 2
    then small
    else if leb n moderate_max && leb dirs 4
    then moderate
    else broad

abbrev pub has_category : FileCategory → List FileCategory → Bool
has_category c = any (is_category c)

abbrev pub is_restricted : ToolRiskLevel → Bool
is_restricted restricted = true
is_restricted _ = false

unfoldable pub critical_path : String → Bool
critical_path f =
    let p = normalize_path f in
    starts_with (codes ".env") p || starts_with (codes "secrets/") p || contains (codes "id_rsa") p

-- `cats <= {SOURCE, TEST, DOCUMENTATION}`.
abbrev pub plain_category : FileCategory → Bool
plain_category c = is_category c source || is_category c test || is_category c documentation

unfoldable pub classify_risk :
    List FileCategory → ChangeScope → List ToolRiskLevel → List String → GovernanceRiskLevel
classify_risk cats scope tools files =
    if has_category security cats
    then critical
    else if any critical_path files
    then critical
    else if has_category auth cats || has_category ci cats
    then high
    else if has_category infrastructure cats || has_category migration cats
    then high
    else if has_category dependency cats
    then medium
    else if any is_restricted tools && not (is_small scope)
    then medium
    else if has_category unknown cats || is_broad scope
    then medium
    else if not (is_small scope)
    then medium
    else if all plain_category cats
    then low
    else medium

plain_ordinal : (c d : FileCategory) → is_category c d ≡ true → plain_category c ≡ plain_category d
plain_ordinal c d h = ground arith

plain_excludes :
    (c : FileCategory) (cats : List FileCategory)
    → plain_category c ≡ false
    → all plain_category cats ≡ true
    → has_category c cats ≡ false
plain_excludes c [] h k = refl
plain_excludes c (d ∷ cats) h k = ground (arith, plain_ordinal c d, plain_excludes c cats h)

-- LOW risk is given only to changes of SOURCE, TEST and DOCUMENTATION files in a SMALL scope, none of
-- them on a critical path; and exactly to those.
pub classify_risk-low :
    (cats : List FileCategory) (scope : ChangeScope) (tools : List ToolRiskLevel)
    (files : List String)
    → (risk_order (classify_risk cats scope tools files) == 0)
      ≡ (all plain_category cats && is_small scope && not (any critical_path files))
unfolding classify_risk
classify_risk-low cats scope tools files = ground (
  arith,
  plain_excludes security cats,
  plain_excludes auth cats,
  plain_excludes ci cats,
  plain_excludes infrastructure cats,
  plain_excludes migration cats,
  plain_excludes dependency cats,
  plain_excludes unknown cats,
)
