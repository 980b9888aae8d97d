-- ===== src/Trust/Machine.antt =====
-- GatewayState, the table of transitions and GatewayStateMachine of trust_gateway.py.
use ci_failure_orchestrator.Common.{
  ℕ, Bool, List, [], ◌∷◌, ◌++◌, Option, none, some, any, ◌==◌, if◌then◌else◌,
}

pub data GatewayState : Type 0 where
  received proposed context_ready policy_evaluated approval_pending denied sandbox_ready executing
        evaluating verifying retryable_failure budget_exhausted human_escalation success :
      GatewayState

-- The place of a state in its declaration, by which states are compared.
abbrev pub ordinal : GatewayState → ℕ
ordinal received = 0
ordinal proposed = 1
ordinal context_ready = 2
ordinal policy_evaluated = 3
ordinal approval_pending = 4
ordinal denied = 5
ordinal sandbox_ready = 6
ordinal executing = 7
ordinal evaluating = 8
ordinal verifying = 9
ordinal retryable_failure = 10
ordinal budget_exhausted = 11
ordinal human_escalation = 12
ordinal success = 13

abbrev pub is : GatewayState → GatewayState → Bool
is s t = ordinal s == ordinal t

-- `_TRANSITIONS.get(state, set())`.
abbrev pub transitions : GatewayState → List GatewayState
transitions received = proposed ∷ []
transitions proposed = context_ready ∷ human_escalation ∷ []
transitions context_ready = policy_evaluated ∷ []
transitions policy_evaluated = approval_pending ∷ budget_exhausted ∷ denied ∷ sandbox_ready ∷ []
transitions sandbox_ready = executing ∷ []
transitions executing = evaluating ∷ []
transitions evaluating = verifying ∷ retryable_failure ∷ []
transitions verifying = success ∷ retryable_failure ∷ []
transitions retryable_failure = proposed ∷ budget_exhausted ∷ []
transitions budget_exhausted = human_escalation ∷ []
transitions _ = []

pub record GatewayStateMachine : Type 0 where
  pub state : GatewayState
  pub history : List GatewayState

abbrev pub new_machine : GatewayStateMachine
new_machine = record { state = received; history = received ∷ [] }

-- `none` is InvalidGatewayTransition.
abbrev pub transition : GatewayState → GatewayStateMachine → Option GatewayStateMachine
transition target m =
    if any (is target) (transitions m.state)
    then some (record { state = target; history = m.history ++ target ∷ [] })
    else none
