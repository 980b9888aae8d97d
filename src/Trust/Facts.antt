-- ===== src/Trust/Facts.antt =====
-- The facts of a TrustContext (ci_failure_orchestrator/trust.py) that TrustPolicyEngine.evaluate of
-- trust_policy.py matches rules against.
use ci_failure_orchestrator.Common.{
  String, Bool, true, false, not, List, [], ◌∷◌, Option, none, some, if◌then◌else◌, str_eq, Chars,
  codes, same,
}

pub data DataClassification : Type 0 where
  unknown public_data internal confidential restricted : DataClassification

abbrev pub classification_value : DataClassification → String
classification_value unknown = "UNKNOWN"
classification_value public_data = "PUBLIC"
classification_value internal = "INTERNAL"
classification_value confidential = "CONFIDENTIAL"
classification_value restricted = "RESTRICTED"

-- The fields that the policy reads. `capabilities_pass` says that the required network capabilities
-- are all "pass".
pub record TrustContext : Type 0 where
  pub provider_known : Bool
  pub jurisdictions : List String
  pub data_residency : Option String
  pub data_classification : DataClassification
  pub destination_country : Option String
  pub external_provider : Option Bool
  pub data_leaves_host : Option Bool
  pub capabilities_pass : Bool
  pub requested_operation : String
  pub destructive : Bool
  pub human_approved : Bool

-- `TrustContext.network_ready`.
abbrev pub network_ready : TrustContext → Bool
network_ready c = elim c.external_provider [
  | none ↦ false
  | some false ↦ true
  | some true ↦ c.capabilities_pass
]

-- A fact, or a scalar of the configuration.
pub data Value : Type 0 where
  null : Value
  flag : Bool → Value
  word : String → Value
  words : List String → Value

abbrev pub of_flag : Option Bool → Value
of_flag none = null
of_flag (some b) = flag b

abbrev pub of_word : Option String → Value
of_word none = null
of_word (some s) = word s

abbrev pub aligned : Option String → Option String → Value
aligned (some country) (some residency) = flag (str_eq country residency)
aligned _ _ = null

abbrev pub facts : TrustContext → List (String × Value)
facts c =
    ("provider_known", flag c.provider_known)
    ∷ ("classification", word (classification_value c.data_classification))
    ∷ ("external_provider", of_flag c.external_provider)
    ∷ ("data_leaves_host", of_flag c.data_leaves_host)
    ∷ ("operation", word c.requested_operation)
    ∷ ("destructive", flag c.destructive)
    ∷ ("network_ready", flag (network_ready c))
    ∷ ("jurisdictions", words c.jurisdictions)
    ∷ ("data_residency", of_word c.data_residency)
    ∷ ("destination_country", of_word c.destination_country)
    ∷ ("residency_aligned", aligned c.destination_country c.data_residency)
    ∷ []

-- `facts.get(key)`.
abbrev pub fact : Chars → List (String × Value) → Value
fact key [] = null
fact key ((k, v) ∷ rest) = if same (codes k) key then v else fact key rest

-- `==` of a fact and a scalar; the tuple of jurisdictions equals none.
abbrev pub equal : Value → Value → Bool
equal null null = true
equal (flag true) (flag b) = b
equal (flag false) (flag b) = not b
equal (word s) (word t) = str_eq s t
equal _ _ = false
