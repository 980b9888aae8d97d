-- ===== src/Trust/Approval.antt =====
-- What a human approval changes in a decision of the trust policy (trust_policy.py), and what the shipped
-- rules (config/policies.yaml) allow without one.
use ci_failure_orchestrator.Common.{
  String, Bool, true, false, List, [], ◌∷◌, Option, none, some, ◌≡◌, refl, arith, all, and-both,
  str_append,
}
use ci_failure_orchestrator.Trust.Defs.{TrustDecision, allow, deny, require_approval, PolicyResult}
use ci_failure_orchestrator.Trust.Facts.{TrustContext, facts}
use ci_failure_orchestrator.Trust.Policy.{
  matches, Rule, configured, parse_decision, result_of, decided, by_match, evaluate,
}

-- A decision with the approval of a person.
abbrev pub upgraded : PolicyResult → PolicyResult
upgraded r = elim r.decision [
  | require_approval ↦ record { decision = allow; rule_id = str_append r.rule_id "_APPROVED" }
  | _ ↦ r
]

abbrev pub upgraded_option : Option PolicyResult → Option PolicyResult
upgraded_option none = none
upgraded_option (some r) = some (upgraded r)

abbrev pub approved_by : Bool → TrustContext → TrustContext
approved_by b c = record c { human_approved = b }

abbrev pub gives_reason : Rule → Bool
gives_reason r = elim r.reason [ none ↦ false | some _ ↦ true ]

result_of-upgraded :
    (r : Rule) (d : TrustDecision) (reason : Option String)
    → r.reason ≡ reason
    → gives_reason r ≡ true
    → result_of true r d ≡ upgraded_option (result_of false r d)
result_of-upgraded r d none e h = ground (arith, e)
result_of-upgraded r allow (some reason) e h = rw e refl
result_of-upgraded r deny (some reason) e h = rw e refl
result_of-upgraded r require_approval (some reason) e h = rw e refl

decided-upgraded :
    (r : Rule) (o : Option String)
    → gives_reason r ≡ true
    → decided true r o ≡ upgraded_option (decided false r o)
decided-upgraded r none h = refl
decided-upgraded r (some s) h = by_decision (parse_decision s)
  where
    by_decision :
        (d : Option TrustDecision)
        → elim d [ none ↦ none | some e ↦ result_of true r e ]
          ≡ upgraded_option (elim d [ none ↦ none | some e ↦ result_of false r e ])
    by_decision none = refl
    by_decision (some e) = result_of-upgraded r e r.reason refl h

by_match-upgraded :
    (m : Option Bool) (now later now_approved later_approved : Option PolicyResult)
    → now_approved ≡ upgraded_option now
    → later_approved ≡ upgraded_option later
    → by_match m now_approved later_approved ≡ upgraded_option (by_match m now later)
by_match-upgraded none now later now_approved later_approved h k = refl
by_match-upgraded (some true) now later now_approved later_approved h k = h
by_match-upgraded (some false) now later now_approved later_approved h k = k

-- For any settings and any rules that each give a reason, the approval of a person changes a decision of
-- the trust policy only if it was REQUIRE_APPROVAL, into ALLOW by the same rule: a DENY stays, an ALLOW
-- stays, and an exception too.
pub evaluate-upgraded :
    (settings : String → Option String) (rules : List Rule) (c : TrustContext)
    → all gives_reason rules ≡ true
    → evaluate settings rules (approved_by true c)
      ≡ upgraded_option (evaluate settings rules (approved_by false c))
unfolding evaluate
evaluate-upgraded settings [] c h = refl
evaluate-upgraded settings (r ∷ rs) c h =
    let (here, later) = and-both (gives_reason r) h in
    by_match-upgraded (matches (facts c) r.conditions) (decided false r (configured settings r))
      (evaluate settings rs (approved_by false c)) (decided true r (configured settings r))
      (evaluate settings rs (approved_by true c)) (decided-upgraded r (configured settings r) here)
      (evaluate-upgraded settings rs c later)
