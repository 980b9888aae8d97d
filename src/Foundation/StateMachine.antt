-- ===== src/Foundation/StateMachine.antt =====
-- The lifecycle of a foundation run: ci_failure_orchestrator/foundation/state_machine.py and
-- `RunStatus` of foundation/models.py. The tracker's operations are those of Lifecycle.
pub mod Order
use ci_failure_orchestrator.Common.{ℕ, String, Bool, true, false, List, [], ◌∷◌, Option, any, ◌==◌}
use ci_failure_orchestrator.Lifecycle
use ci_failure_orchestrator.Lifecycle.{Machine}

pub data RunStatus : Type 0 where
  received context_ready classified planned executing proposal_ready sandbox_running evaluating
        evaluated retry_decision retrying policy_review approved rejected escalated
        escalation_building awaiting_human escalation_error succeeded failed :
      RunStatus

-- The place of a status in its declaration, by which statuses are compared.
abbrev pub ordinal : RunStatus → ℕ
ordinal received = 0
ordinal context_ready = 1
ordinal classified = 2
ordinal planned = 3
ordinal executing = 4
ordinal proposal_ready = 5
ordinal sandbox_running = 6
ordinal evaluating = 7
ordinal evaluated = 8
ordinal retry_decision = 9
ordinal retrying = 10
ordinal policy_review = 11
ordinal approved = 12
ordinal rejected = 13
ordinal escalated = 14
ordinal escalation_building = 15
ordinal awaiting_human = 16
ordinal escalation_error = 17
ordinal succeeded = 18
ordinal failed = 19

-- `status.value`.
abbrev pub status_value : RunStatus → String
status_value received = "RECEIVED"
status_value context_ready = "CONTEXT_READY"
status_value classified = "CLASSIFIED"
status_value planned = "PLANNED"
status_value executing = "EXECUTING"
status_value proposal_ready = "PROPOSAL_READY"
status_value sandbox_running = "SANDBOX_RUNNING"
status_value evaluating = "EVALUATING"
status_value evaluated = "EVALUATED"
status_value retry_decision = "RETRY_DECISION"
status_value retrying = "RETRYING"
status_value policy_review = "POLICY_REVIEW"
status_value approved = "APPROVED"
status_value rejected = "REJECTED"
status_value escalated = "ESCALATED"
status_value escalation_building = "ESCALATION_BUILDING"
status_value awaiting_human = "AWAITING_HUMAN"
status_value escalation_error = "ESCALATION_ERROR"
status_value succeeded = "SUCCEEDED"
status_value failed = "FAILED"

abbrev pub is : RunStatus → RunStatus → Bool
is a b = ordinal a == ordinal b

unfoldable pub allowed_transitions : RunStatus → List RunStatus
allowed_transitions received = context_ready ∷ failed ∷ []
allowed_transitions context_ready = classified ∷ failed ∷ []
allowed_transitions classified = planned ∷ failed ∷ []
allowed_transitions planned = executing ∷ failed ∷ []
allowed_transitions executing = proposal_ready ∷ failed ∷ []
allowed_transitions proposal_ready = sandbox_running ∷ failed ∷ []
allowed_transitions sandbox_running = evaluating ∷ failed ∷ []
allowed_transitions evaluating = evaluated ∷ failed ∷ []
allowed_transitions evaluated = policy_review ∷ retry_decision ∷ failed ∷ []
allowed_transitions retry_decision = retrying ∷ failed ∷ []
allowed_transitions retrying = planned ∷ failed ∷ []
allowed_transitions policy_review = approved ∷ rejected ∷ escalated ∷ failed ∷ []
allowed_transitions escalated = escalation_building ∷ escalation_error ∷ failed ∷ []
allowed_transitions escalation_building = awaiting_human ∷ escalation_error ∷ failed ∷ []
allowed_transitions approved = []
allowed_transitions rejected = []
allowed_transitions awaiting_human = approved ∷ rejected ∷ failed ∷ []
allowed_transitions escalation_error = []
allowed_transitions succeeded = []
allowed_transitions failed = []

-- `to_status in ALLOWED_TRANSITIONS[status]`.
unfoldable pub allowed : RunStatus → RunStatus → Bool
unfolding allowed_transitions
allowed s t = any (is t) (allowed_transitions s)

-- `FoundationStateMachine`: the status and the history of transitions made.
abbrev pub FoundationStateMachine : Type 0
FoundationStateMachine = Machine RunStatus

unfoldable pub transition :
    FoundationStateMachine → RunStatus → String → Option FoundationStateMachine
transition = Lifecycle.transition allowed

unfoldable pub terminal : RunStatus → Bool
terminal approved = true
terminal rejected = true
terminal awaiting_human = true
terminal escalation_error = true
terminal succeeded = true
terminal failed = true
terminal _ = false
