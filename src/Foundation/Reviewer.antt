-- ===== src/Foundation/Reviewer.antt =====
-- What a reviewer asks for, and the escalation it is about: `ReviewerAction` of
-- ci_failure_orchestrator/foundation/escalation.py and the first half of `apply_reviewer_decision` in
-- human_decision.py.
use ci_failure_orchestrator.Common.{
  ℕ, String, Bool, false, ◌&&◌, ◌||◌, [], ◌∷◌, Option, none, some, str_eq, if◌then◌else◌, Chars,
  codes, same, is_space, is_blank, leb, map, ◌-◌,
}
use ci_failure_orchestrator.Foundation.Json.{
  Json, text, object, Builtins, get, truthy, or_else, str,
}
use ci_failure_orchestrator.Foundation.Exec.{attribute_error, Result, ok, raised}
use ci_failure_orchestrator.Foundation.RunDir.{SummaryFile, no_summary, bad_summary, summary}

pub data ReviewerAction : Type 0 where
  approve reject request_changes defer : ReviewerAction

abbrev pub action_value : ReviewerAction → String
action_value approve = "APPROVE"
action_value reject = "REJECT"
action_value request_changes = "REQUEST_CHANGES"
action_value defer = "DEFER"

-- `action.strip().upper()`, with the upper case of ASCII text.
unfoldable pub strip_start : Chars → Chars
strip_start [] = []
strip_start (c ∷ s) = let rest = strip_start s in if is_space c then rest else c ∷ s

unfoldable pub strip_end : Chars → Chars
strip_end [] = []
strip_end (c ∷ s) = let rest = strip_end s in if is_blank (c ∷ s) then [] else c ∷ rest

abbrev pub upper_char : ℕ → ℕ
upper_char c = if leb b'a' c && leb c b'z' then c - 32 else c

unfoldable pub normal_action : String → Chars
normal_action action = map upper_char (strip_end (strip_start (codes action)))

-- `ReviewerAction(...)`; `none` is the ValueError.
unfoldable pub parse_action : String → Option ReviewerAction
parse_action action =
    let given = normal_action action in
    if same given (codes "APPROVE")
    then some approve
    else if same given (codes "REJECT")
    then some reject
    else if same given (codes "REQUEST_CHANGES")
    then some request_changes
    else if same given (codes "DEFER")
    then some defer
    else none

pub data HumanDecisionStatus : Type 0 where
  applied recorded blocked inconsistent : HumanDecisionStatus

-- The escalation that a decision is about; or there is none or another one than in the package, or
-- the package is no JSON.
pub data Resolution : Type 0 where
  resolved : String → Resolution
  unresolved unreadable_package : Resolution

-- What a caller passes on.
pub record Review : Type 0 where
  pub action : String
  pub reviewer_id : String
  pub comment : String
  pub escalation_id : Option String

abbrev pub given_id : Option String → String
given_id i = elim i [ none ↦ "" | some s ↦ s ]

abbrev pub given_or : String → Result String → Result String
given_or given own = if str_eq given "" then own else ok given

module _ (py : Builtins) where
  -- `str(esc_payload.get("escalation_id") or "")`.
  abbrev pub payload_id : Json → Result String
  payload_id (object ms) = ok (str py (or_else (get "escalation_id" ms) (text "")))
  payload_id _ = raised attribute_error

  -- The identifier, checked against the one in the package.
  abbrev pub matched : String → Bool → Result String → Result Resolution
  matched i checks own =
      if str_eq i ""
      then ok unresolved
      else if checks
      then elim own [
        | raised x ↦ raised x
        | ok o ↦ if str_eq o "" || str_eq o i then ok (resolved i) else ok unresolved
      ]
      else ok (resolved i)

  unfoldable pub resolve_escalation : Option String → SummaryFile → Result Resolution
  resolve_escalation given no_summary = matched (given_id given) false (ok "")
  resolve_escalation given bad_summary = ok unreadable_package
  resolve_escalation given (summary payload) =
      elim (given_or (given_id given) (payload_id payload)) [
        | raised x ↦ raised x
        | ok i ↦ matched i (truthy payload) (payload_id payload)
      ]
