-- ===== src/Trust/Policy.antt =====
-- TrustPolicyEngine.evaluate of ci_failure_orchestrator/trust_policy.py, on the TrustContext of
-- ci_failure_orchestrator/trust.py, and the rules of config/policies.yaml. Each rule has an id; of reasons,
-- severities and evidence, results keep none.
use ci_failure_orchestrator.Common.{
  ℕ, ◌-◌, zero, suc, String, Bool, true, false, List, [], ◌∷◌, Option, none, some, any, length,
  if◌then◌else◌, str_eq, str_append, Chars, codes, ends_with, contains,
}
use ci_failure_orchestrator.Trust.Defs.{TrustDecision, allow, deny, require_approval, PolicyResult}
use ci_failure_orchestrator.Trust.Facts.{TrustContext, Value, equal, fact, facts, flag, word}

-- What a rule expects of a key: a scalar, or a list of them.
pub data Expected : Type 0 where
  one : Value → Expected
  several : List Value → Expected

-- `fact in expected`; `none` is the TypeError of a test in something that is no container.
abbrev pub within : Value → Expected → Option Bool
within v (several vs) = some (any (equal v) vs)
within (word s) (one (word t)) = some (contains (codes s) (codes t))
within v (one _) = none

abbrev pub equals : Value → Expected → Bool
equals v (one w) = equal v w
equals v (several _) = false

abbrev pub take_chars : ℕ → Chars → Chars
take_chars zero s = []
take_chars (suc n) [] = []
take_chars (suc n) (c ∷ s) = c ∷ take_chars n s

abbrev pub condition : List (String × Value) → String × Expected → Option Bool
condition fs (key, expected) =
    if ends_with (codes "_in") (codes key)
    then within (fact (take_chars (length (codes key) - 3) (codes key)) fs) expected
    else some (equals (fact (codes key) fs) expected)

abbrev pub and_then : Option Bool → Option Bool → Option Bool
and_then none rest = none
and_then (some false) rest = some false
and_then (some true) rest = rest

-- `_matches`.
unfoldable pub matches : List (String × Value) → List (String × Expected) → Option Bool
matches fs [] = some true
matches fs (c ∷ cs) = and_then (condition fs c) (matches fs cs)

pub record Rule : Type 0 where
  pub id : String
  pub conditions : List (String × Expected)
  pub decision : Option String
  pub decision_from_setting : Option String
  pub reason : Option String

-- `TrustDecision(configured)`.
abbrev pub parse_decision : String → Option TrustDecision
parse_decision s =
    if str_eq s "ALLOW"
    then some allow
    else if str_eq s "DENY"
    then some deny
    else if str_eq s "REQUIRE_APPROVAL"
    then some require_approval
    else none

abbrev pub configured : (String → Option String) → Rule → Option String
configured settings rule = elim rule.decision [
  | some d ↦ some d
  | none ↦ elim rule.decision_from_setting [ none ↦ none | some name ↦ settings name ]
]

-- `rule["reason"]` is read for every result but that of an approved decision; a rule without one raises
-- KeyError there.
abbrev pub with_reason : Option String → PolicyResult → Option PolicyResult
with_reason none r = none
with_reason (some reason) r = some r

abbrev pub result_of : Bool → Rule → TrustDecision → Option PolicyResult
result_of human_approved r require_approval =
    if human_approved
    then some (record { decision = allow; rule_id = str_append r.id "_APPROVED" })
    else with_reason r.reason (record { decision = require_approval; rule_id = r.id })
result_of human_approved r d = with_reason r.reason (record { decision = d; rule_id = r.id })

abbrev pub decided : Bool → Rule → Option String → Option PolicyResult
decided human_approved r none = none
decided human_approved r (some s) = elim (parse_decision s) [
  | none ↦ none
  | some d ↦ result_of human_approved r d
]

abbrev pub by_match : Option Bool → Option PolicyResult → Option PolicyResult → Option PolicyResult
by_match none now later = none
by_match (some true) now later = now
by_match (some false) now later = later

-- `TrustPolicyEngine.evaluate`; `none` is an exception.
unfoldable pub evaluate : (String → Option String) → List Rule → TrustContext → Option PolicyResult
evaluate settings [] c = none
evaluate settings (r ∷ rs) c =
    by_match (matches (facts c) r.conditions) (decided c.human_approved r (configured settings r))
      (evaluate settings rs c)

-- The rules and the setting of config/policies.yaml.
abbrev pub shipped_setting : String → Option String
shipped_setting name =
    if str_eq name "restricted_external_decision" then some "REQUIRE_APPROVAL" else none

abbrev rule : String → List (String × Expected) → String → String → Rule
rule id conditions decision reason = record {
  id = id;
  conditions = conditions;
  decision = some decision;
  decision_from_setting = none;
  reason = some reason;
}

abbrev is_on : Expected
is_on = one (flag true)

abbrev is_off : Expected
is_off = one (flag false)

abbrev pub shipped_rules : List Rule
shipped_rules =
    rule "UNKNOWN_PROVIDER_DESTRUCTIVE" (("provider_known", is_off) ∷ ("destructive", is_on) ∷ [])
      "DENY" "Provider trust metadata is unavailable for a destructive operation."
    ∷ rule "DESTRUCTIVE_ACTION" (("destructive", is_on) ∷ []) "REQUIRE_APPROVAL"
        "Destructive operations require explicit human approval."
    ∷ rule "UNKNOWN_CLASSIFICATION_SENSITIVE"
        (("classification", one (word "UNKNOWN"))
          ∷ ("operation_in", several (word "write" ∷ word "delete" ∷ word "execute" ∷ []))
          ∷ [])
        "REQUIRE_APPROVAL" "Sensitive operation has no established data classification."
    ∷ rule "UNKNOWN_PROVIDER" (("provider_known", is_off) ∷ []) "REQUIRE_APPROVAL"
        "Provider trust metadata is unavailable."
    ∷ record {
      id = "RESTRICTED_EXTERNAL_PROVIDER";
      conditions =
          ("classification", one (word "RESTRICTED"))
          ∷ ("external_provider", is_on)
          ∷ ("data_leaves_host", is_on)
          ∷ [];
      decision = none;
      decision_from_setting = some "restricted_external_decision";
      reason = some "Restricted data would leave the current host trust boundary.";
    }
    ∷ rule "DATA_RESIDENCY_MISMATCH"
        (("classification_in", several (word "CONFIDENTIAL" ∷ word "RESTRICTED" ∷ []))
          ∷ ("external_provider", is_on)
          ∷ ("residency_aligned", is_off)
          ∷ [])
        "REQUIRE_APPROVAL" "Destination jurisdiction does not match the requested data residency."
    ∷ rule "EXTERNAL_NETWORK_UNVERIFIED"
        (("external_provider", is_on) ∷ ("network_ready", is_off) ∷ []) "REQUIRE_APPROVAL"
        "Required external network capability is not verified."
    ∷ rule "CONFIDENTIAL_LOCAL"
        (("classification", one (word "CONFIDENTIAL"))
          ∷ ("external_provider", is_off)
          ∷ ("data_leaves_host", is_off)
          ∷ [])
        "ALLOW" "Confidential data remains on the local host."
    ∷ rule "PUBLIC_KNOWN_PROVIDER"
        (("classification", one (word "PUBLIC")) ∷ ("provider_known", is_on) ∷ []) "ALLOW"
        "Public data uses a configured provider."
    ∷ rule "DEFAULT_REVIEW" [] "REQUIRE_APPROVAL" "No explicit automated-allow policy matched."
    ∷ []
