-- ===== src/Foundation/StateMachine/Order.antt =====
-- The order of the stages that the table of foundation/state_machine.py imposes on every run.
use ci_failure_orchestrator.Common.{
  String, Bool, true, false, not, ◌&&◌, ◌||◌, List, ◌≡◌, refl, arith, any, Bool-cases, inl, inr,
}
use ci_failure_orchestrator.Lifecycle.{
  Machine, initial, attempt_all, attempt_all-Connects, Connects, Connects-enters,
  attempt_all-within,
}
use ci_failure_orchestrator.Foundation.StateMachine.{
  RunStatus, received, evaluated, policy_review, approved, rejected, escalated, escalation_building,
  awaiting_human, escalation_error, succeeded, failed, is, allowed, terminal,
}

-- The statuses of a run whose proposal has come before the policy gate.
abbrev pub reviewed : RunStatus → Bool
reviewed policy_review = true
reviewed approved = true
reviewed rejected = true
reviewed escalated = true
reviewed escalation_building = true
reviewed awaiting_human = true
reviewed escalation_error = true
reviewed _ = false

-- The one edge into the reviewed statuses.
enters_review :
    (a b : RunStatus)
    → allowed a b ≡ true
    → reviewed a ≡ false
    → reviewed b ≡ true
    → (is a evaluated && is b policy_review) ≡ true
unfolding allowed
enters_review a b ok out inside = ground arith

stays_reviewed :
    (a b : RunStatus)
    → allowed a b ≡ true
    → (reviewed a || is a failed) ≡ true
    → (reviewed b || is b failed) ≡ true
unfolding allowed
stays_reviewed a b ok h = ground arith

stays_unsucceeded :
    (a b : RunStatus)
    → allowed a b ≡ true
    → not (is a succeeded) ≡ true
    → not (is b succeeded) ≡ true
unfolding allowed
stays_unsucceeded a b ok h = ground arith

-- Whatever transitions are tried from RECEIVED, the history is a connected path of allowed
-- transitions to the status, and if the status is POLICY_REVIEW, APPROVED, REJECTED,
-- AWAITING_HUMAN or an escalation status, that path goes from EVALUATED to POLICY_REVIEW.
pub reviewed_after_evaluated :
    (moves : List (RunStatus × String))
    → let m = attempt_all allowed (initial received) moves in
      Connects allowed received m.history m.status
      × ((not (reviewed m.status) || any (λ e. is e.0 evaluated && is e.1 policy_review) m.history)
          ≡ true)
reviewed_after_evaluated moves =
    let path = attempt_all-Connects allowed received (initial received) moves refl in
    let entry = λ (a b : RunStatus). is a evaluated && is b policy_review in
    (
      path,
      elim (Bool-cases (reviewed (attempt_all allowed (initial received) moves).status)) [
        | inl inside ↦ ground (
          arith,
          inside,
          Connects-enters allowed reviewed entry enters_review received _ _ path refl inside,
        )
        | inr outside ↦ ground (arith, outside)
      ],
    )

-- No transitions lead from RECEIVED to the legacy status SUCCEEDED.
pub succeeded_unreachable :
    (moves : List (RunStatus × String))
    → not (is (attempt_all allowed (initial received) moves).status succeeded) ≡ true
succeeded_unreachable moves =
    attempt_all-within allowed (λ s. not (is s succeeded)) stays_unsucceeded (initial received)
      moves refl

-- From the policy gate on, no transitions lead back into the repair loop: the status stays one of
-- the gate or behind it, or it is FAILED.
pub reviewed_for_good :
    (m : Machine RunStatus) (moves : List (RunStatus × String))
    → (reviewed m.status || is m.status failed) ≡ true
    → (reviewed (attempt_all allowed m moves).status
        || is (attempt_all allowed m moves).status failed)
      ≡ true
reviewed_for_good m moves h =
    attempt_all-within allowed (λ s. reviewed s || is s failed) stays_reviewed m moves h

-- FAILED may follow exactly the statuses that are not terminal, and AWAITING_HUMAN; a terminal
-- status allows nothing, but AWAITING_HUMAN allows APPROVED, REJECTED and FAILED.
pub terminal_stops :
    (s t : RunStatus)
    → (allowed s failed ≡ (not (terminal s) || is s awaiting_human))
      × ((terminal s && allowed s t)
          ≡ (is s awaiting_human && (is t approved || is t rejected || is t failed)))
unfolding allowed terminal
terminal_stops s t = ground arith
