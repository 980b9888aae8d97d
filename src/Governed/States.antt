-- ===== src/Governed/States.antt =====
-- PipelineState and PipelineStateMachine: ci_failure_orchestrator/governed/models.py and
-- governed/state_machine.py. The tracker's operations are those of Lifecycle.
use ci_failure_orchestrator.Common.{ℕ, Bool, List, [], ◌∷◌, any, ◌==◌}

pub data PipelineState : Type 0 where
  received context_ready classified planned executing evaluating retrying policy_review
        awaiting_human approved applying verifying succeeded failed cancelled :
      PipelineState

-- The place of a state in its declaration, by which states are compared.
abbrev pub ordinal : PipelineState → ℕ
ordinal received = 0
ordinal context_ready = 1
ordinal classified = 2
ordinal planned = 3
ordinal executing = 4
ordinal evaluating = 5
ordinal retrying = 6
ordinal policy_review = 7
ordinal awaiting_human = 8
ordinal approved = 9
ordinal applying = 10
ordinal verifying = 11
ordinal succeeded = 12
ordinal failed = 13
ordinal cancelled = 14

abbrev pub is : PipelineState → PipelineState → Bool
is s t = ordinal s == ordinal t

-- `ALLOWED_TRANSITIONS`.
abbrev pub allowed_transitions : PipelineState → List PipelineState
allowed_transitions received = context_ready ∷ cancelled ∷ []
allowed_transitions context_ready = classified ∷ failed ∷ []
allowed_transitions classified = planned ∷ awaiting_human ∷ failed ∷ []
allowed_transitions planned = executing ∷ failed ∷ []
allowed_transitions executing = evaluating ∷ failed ∷ []
allowed_transitions evaluating = policy_review ∷ retrying ∷ awaiting_human ∷ failed ∷ []
allowed_transitions retrying = planned ∷ awaiting_human ∷ failed ∷ []
allowed_transitions policy_review = approved ∷ awaiting_human ∷ retrying ∷ failed ∷ []
allowed_transitions awaiting_human = approved ∷ failed ∷ cancelled ∷ []
allowed_transitions approved = applying ∷ verifying ∷ []
allowed_transitions applying = verifying ∷ failed ∷ []
allowed_transitions verifying = succeeded ∷ failed ∷ []
allowed_transitions _ = []

-- `to_state in ALLOWED_TRANSITIONS[self.state]`.
abbrev pub allowed : PipelineState → PipelineState → Bool
allowed from to = any (is to) (allowed_transitions from)
