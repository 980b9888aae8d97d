-- ===== src/Trust/Shipped.antt =====
-- What the shipped rules of the trust policy (config/policies.yaml) allow without a person.
use ci_failure_orchestrator.Common.{
  Bool, true, false, not, ◌&&◌, ◌||◌, Option, none, some, same, ends_with, contains, ◌≡◌, refl, ap,
  ◌∙◌, arith,
}
use ci_failure_orchestrator.Trust.Defs.{PolicyResult, is_allow}
use ci_failure_orchestrator.Trust.Facts.{
  TrustContext, DataClassification, unknown, public_data, internal, confidential, restricted,
}
use ci_failure_orchestrator.Trust.Policy.{matches, evaluate, shipped_setting, shipped_rules}

abbrev pub allows : Option PolicyResult → Bool
allows none = false
allows (some r) = is_allow r.decision

abbrev pub is_true : Option Bool → Bool
is_true none = false
is_true (some b) = b

abbrev pub is_false : Option Bool → Bool
is_false none = false
is_false (some b) = not b

abbrev pub is_public : DataClassification → Bool
is_public public_data = true
is_public _ = false

abbrev pub is_confidential : DataClassification → Bool
is_confidential confidential = true
is_confidential _ = false

-- Of the fields alone.
abbrev pub harmless : TrustContext → Bool
harmless c =
    c.provider_known
    && not c.destructive
    && ((is_public c.data_classification
          && not (is_true c.external_provider && not c.capabilities_pass))
        || (is_confidential c.data_classification
            && is_false c.external_provider
            && is_false c.data_leaves_host))

abbrev context :
    Bool
    → Bool
    → DataClassification
    → Option Bool
    → Option Bool
    → Bool
    → TrustContext
    → TrustContext
context known destructive cls external leaves pass c = record c {
  provider_known = known;
  destructive = destructive;
  data_classification = cls;
  external_provider = external;
  data_leaves_host = leaves;
  capabilities_pass = pass;
  human_approved = false;
}

by_fields :
    (known destructive : Bool) (cls : DataClassification) (external leaves : Option Bool)
    (pass : Bool) (c : TrustContext)
    → allows (
        evaluate shipped_setting shipped_rules
          (context known destructive cls external leaves pass c))
      ≡ harmless (context known destructive cls external leaves pass c)
unfolding evaluate matches same ends_with contains
by_fields true true cls external leaves pass c = refl
by_fields false true cls external leaves pass c = refl
by_fields false false unknown external leaves pass c = ground arith
by_fields false false public_data external leaves pass c = refl
by_fields false false internal external leaves pass c = refl
by_fields false false confidential external leaves pass c = refl
by_fields false false restricted external leaves pass c = refl
by_fields true false unknown none leaves pass c = ground arith
by_fields true false unknown (some false) leaves pass c = ground arith
by_fields true false unknown (some true) leaves pass c = ground arith
by_fields true false public_data none leaves pass c = refl
by_fields true false public_data (some false) leaves pass c = refl
by_fields true false public_data (some true) leaves true c = refl
by_fields true false public_data (some true) leaves false c = refl
by_fields true false internal none leaves pass c = refl
by_fields true false internal (some false) leaves pass c = refl
by_fields true false internal (some true) leaves true c = refl
by_fields true false internal (some true) leaves false c = refl
by_fields true false confidential none leaves pass c = refl
by_fields true false confidential (some false) none pass c = refl
by_fields true false confidential (some false) (some true) pass c = refl
by_fields true false confidential (some false) (some false) pass c = refl
by_fields true false confidential (some true) leaves pass c = ground arith
by_fields true false restricted none leaves pass c = refl
by_fields true false restricted (some false) leaves pass c = refl
by_fields true false restricted (some true) none pass c = ground arith
by_fields true false restricted (some true) (some true) pass c = refl
by_fields true false restricted (some true) (some false) pass c = ground arith

-- Without the approval of a person the shipped rules allow an action exactly if its provider is known,
-- it is not destructive, and either its data is public and an external provider's network is
-- verified, or its data is confidential, the provider is not external and the data stays on the host.
pub shipped_rules_allow :
    (c : TrustContext)
    → c.human_approved ≡ false
    → allows (evaluate shipped_setting shipped_rules c) ≡ harmless c
shipped_rules_allow c h =
    ap (λ b. allows (evaluate shipped_setting shipped_rules (record c { human_approved = b }))) h
    ∙ by_fields c.provider_known c.destructive c.data_classification c.external_provider
        c.data_leaves_host c.capabilities_pass c
