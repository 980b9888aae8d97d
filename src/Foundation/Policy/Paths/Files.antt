-- ===== src/Foundation/Policy/Paths/Files.antt =====
-- The categories of changed files in ci_failure_orchestrator/foundation/policy.py: `normalize_path` and
-- `classify_file`.
use ci_failure_orchestrator.Common.{
  ℕ, String, Chars, codes, same, starts_with, ends_with, contains, lower, replace_char,
  after_last_slash, Bool, true, false, ◌&&◌, ◌||◌, List, [], ◌∷◌, ◌++◌, any, leb, ◌==◌,
  if◌then◌else◌,
}

pub data FileCategory : Type 0 where
  source test documentation ci dependency security auth infrastructure migration configuration
        unknown :
      FileCategory

abbrev pub category_ordinal : FileCategory → ℕ
category_ordinal source = 0
category_ordinal test = 1
category_ordinal documentation = 2
category_ordinal ci = 3
category_ordinal dependency = 4
category_ordinal security = 5
category_ordinal auth = 6
category_ordinal infrastructure = 7
category_ordinal migration = 8
category_ordinal configuration = 9
category_ordinal unknown = 10

abbrev pub is_category : FileCategory → FileCategory → Bool
is_category a b = category_ordinal a == category_ordinal b

pub data ChangeScope : Type 0 where
  small moderate broad : ChangeScope

abbrev pub is_small : ChangeScope → Bool
is_small small = true
is_small _ = false

abbrev pub is_broad : ChangeScope → Bool
is_broad broad = true
is_broad _ = false

pub data GovernanceRiskLevel : Type 0 where
  low medium high critical : GovernanceRiskLevel

-- `_RISK_ORDER`.
abbrev pub risk_order : GovernanceRiskLevel → ℕ
risk_order low = 0
risk_order medium = 1
risk_order high = 2
risk_order critical = 3

unfoldable pub max_risk : GovernanceRiskLevel → GovernanceRiskLevel → GovernanceRiskLevel
max_risk a b = if leb (risk_order b) (risk_order a) then a else b

-- `while p.startswith("./"): p = p[2:]`.
unfoldable pub strip_dot_slash : Chars → Chars
strip_dot_slash (a ∷ b ∷ s) = if a == b'.' && b == b'/' then strip_dot_slash s else a ∷ b ∷ s
strip_dot_slash s = s

unfoldable pub normalize_path : String → Chars
unfolding strip_dot_slash
normalize_path path = lower (strip_dot_slash (replace_char b'\\' b'/' (codes path)))

-- `x in {...}` and `x.endswith((...))` over texts.
abbrev one_of : Chars → List String → Bool
one_of s = any (λ t. same s (codes t))

abbrev ends_with_any : Chars → List String → Bool
ends_with_any s = any (λ t. ends_with (codes t) s)

abbrev dependency_basenames : List String
dependency_basenames =
    "requirements.txt" ∷ "pyproject.toml" ∷ "poetry.lock" ∷ "package.json" ∷ "package-lock.json"
    ∷ "pnpm-lock.yaml" ∷ "yarn.lock" ∷ "cargo.toml" ∷ "cargo.lock" ∷ "go.mod" ∷ "go.sum" ∷ []

-- The tests of `classify_file`, over the path `p` and its base name.
unfoldable pub is_dependency : Chars → Bool
is_dependency base = one_of base dependency_basenames || ends_with (codes ".lock") base

unfoldable pub is_ci : Chars → Chars → Bool
is_ci p base =
    starts_with (codes ".github/workflows/") p
    || one_of base ("jenkinsfile" ∷ "azure-pipelines.yml" ∷ ".gitlab-ci.yml" ∷ [])
    || ends_with (codes "/azure-pipelines.yml") p
    || same p (codes "azure-pipelines.yml")
    || same p (codes ".gitlab-ci.yml")
    || same p (codes "jenkinsfile")

-- `f"/{p}/"`.
abbrev slashed : Chars → Chars
slashed p = b'/' ∷ (p ++ b'/' ∷ [])

unfoldable pub is_migration : Chars → Bool
is_migration p =
    contains (codes "/migrations/") (slashed p)
    || starts_with (codes "migrations/") p
    || contains (codes "/alembic/") (slashed p)

unfoldable pub is_infrastructure : Chars → Bool
is_infrastructure p =
    starts_with (codes "infra/") p
    || starts_with (codes "terraform/") p
    || starts_with (codes "deploy/") p

unfoldable pub is_auth : Chars → Bool
is_auth p =
    starts_with (codes "auth/") p
    || contains (codes "/auth/") (slashed p)
    || contains (codes "authorization") p
    || contains (codes "permission") p

unfoldable pub is_security : Chars → Chars → Bool
is_security p base =
    contains (codes "secret") p
    || starts_with (codes "secrets/") p
    || contains (codes "credential") p
    || one_of base (".env" ∷ "id_rsa" ∷ [])
    || contains (codes "crypt") p

unfoldable pub is_test : Chars → Chars → Bool
is_test p base =
    starts_with (codes "tests/") p
    || starts_with (codes "test/") p
    || contains (codes "/tests/") (slashed p)
    || starts_with (codes "test_") base
    || ends_with (codes "_test.py") base

unfoldable pub is_documentation : Chars → Chars → Bool
is_documentation p base =
    starts_with (codes "docs/") p
    || ends_with (codes ".md") base
    || one_of base ("readme" ∷ "readme.md" ∷ "changelog.md" ∷ [])

unfoldable pub is_source : Chars → Bool
is_source p =
    starts_with (codes "src/") p
    || starts_with (codes "ci_failure_orchestrator/") p
    || ends_with_any p (".py" ∷ ".ts" ∷ ".js" ∷ ".go" ∷ ".rs" ∷ [])

unfoldable pub is_configuration : Chars → Bool
is_configuration base =
    ends_with_any base (".yml" ∷ ".yaml" ∷ ".toml" ∷ ".ini" ∷ ".cfg" ∷ ".json" ∷ [])

unfoldable pub classify_file : String → FileCategory
classify_file path =
    let p = normalize_path path in
    let base = after_last_slash p in
    if is_dependency base
    then dependency
    else if is_ci p base
    then ci
    else if is_migration p
    then migration
    else if is_infrastructure p
    then infrastructure
    else if is_auth p
    then auth
    else if is_security p base
    then security
    else if is_test p base
    then test
    else if is_documentation p base
    then documentation
    else if is_source p
    then source
    else if is_configuration base
    then configuration
    else unknown
