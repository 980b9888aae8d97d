-- ===== src/Repair/Green.antt =====
-- When an incident of ci_failure_orchestrator/repair_state_machine.py is green.
use ci_failure_orchestrator.Common.{
  ◌+◌, String, Bool, true, false, not, ◌&&◌, ◌||◌, List, [], ◌∷◌, Option, none, some, any, last?,
  last?-append, ◌≡◌, refl, arith,
}
use ci_failure_orchestrator.Repair.Incident.{
  RepairState, detected, dispatched, verifying, green, review_required, escalated, denied, is,
  Transition, RepairIncident, VerificationResult, successful, verified_state, planned_state,
  Payload, start, Operation, plan, dispatch, accept, verify, prepare_retry, transition, operate,
  operate_all,
}

-- A verification that is successful.
abbrev pub is_success : Operation → Bool
is_success (verify v) = successful v
is_success _ = false

-- The last transition is the one from VERIFYING to GREEN.
abbrev pub turned_green : Option Transition → Bool
turned_green none = false
turned_green (some t) = is t.from_state verifying && is t.to_state green

-- What verification makes of a repair. It is green exactly when the canonical predicate holds; it is
-- denied exactly for weakened tests, a regression or a failed security gate; and it goes to review
-- exactly when only the policy gate, and perhaps CI, has failed.
pub verified_state_exact :
    (v : VerificationResult)
    → (is (verified_state v).0 green ≡ successful v)
      × (is (verified_state v).0 denied
          ≡ (v.test_weakening_detected || v.regression_detected || not v.security_gate_passed))
      × (is (verified_state v).0 review_required ≡ (
          not v.test_weakening_detected
          && not v.regression_detected
          && v.security_gate_passed
          && v.targeted_tests_passed
          && v.full_regression_passed
          && not v.policy_gate_passed))
unfolding verified_state successful
verified_state_exact v = (ground arith, ground arith, ground arith)

module _ (sha256 : Payload → String) where
  -- A green incident turned green by its last transition.
  abbrev green_turned : RepairIncident → Bool
  green_turned i = not (is i.state green) || turned_green (last? i.transitions)

  operate-green :
      (o : Operation) (i : RepairIncident)
      → is (operate sha256 o i).state green ≡ true
      → (is i.state green || is_success o) ≡ true
  unfolding operate transition planned_state verified_state
  operate-green (plan d) i h = ground (arith, h)
  operate-green (dispatch a key) i h = ground (arith, h)
  operate-green (accept r) i h = ground (arith, h)
  operate-green (verify v) i h = ground (arith, h)
  operate-green prepare_retry i h = ground (arith, h)

  transition-state :
      (to : RepairState) (reason : String) (i : RepairIncident)
      → (transition sha256 to reason i).state ≡ to
  unfolding transition
  transition-state to reason i = refl

  transition-turned_green :
      (to : RepairState) (reason : String) (i : RepairIncident)
      → turned_green (last? (transition sha256 to reason i).transitions)
        ≡ (is i.state verifying && is to green)
  unfolding transition
  transition-turned_green to reason i = rw (last?-append i.transitions) refl

  -- A transition to GREEN, if there is one, is from VERIFYING.
  transition-green_turned :
      (to : RepairState) (reason : String) (i : RepairIncident)
      → (not (is to green) || is i.state verifying) ≡ true
      → green_turned (transition sha256 to reason i) ≡ true
  transition-green_turned to reason i h =
      ground (arith, h, transition-state to reason i, transition-turned_green to reason i)

  operate-green_turned :
      (o : Operation) (i : RepairIncident)
      → green_turned i ≡ true
      → green_turned (operate sha256 o i) ≡ true
  unfolding operate planned_state verified_state
  operate-green_turned (plan d) i h =
      transition-green_turned _ _ (record i { attempt = i.attempt + 1 }) (ground arith)
  operate-green_turned (dispatch a key) i h =
      ground (arith, h, transition-green_turned dispatched _ i)
  operate-green_turned (accept r) i h =
      let charged : RepairIncident = record i { cost_spent_usd = i.cost_spent_usd + r.cost_usd } in
      ground (
        arith,
        h,
        transition-state denied "worker_result_failed_safety_gate" charged,
        transition-state escalated "worker_proposed_no_patch" charged,
        transition-state verifying "candidate_patch_ready" charged,
      )
  operate-green_turned (verify v) i h =
      ground (arith, h, transition-green_turned (verified_state v).0 (verified_state v).1 i)
  operate-green_turned prepare_retry i h =
      ground (arith, h, transition-green_turned detected "bounded_retry" i)

  operate_all-green :
      (os : List Operation) (i : RepairIncident)
      → green_turned i ≡ true
      → is (operate_all sha256 os i).state green ≡ true
      → ((is i.state green || any is_success os) ≡ true)
        × (turned_green (last? (operate_all sha256 os i).transitions) ≡ true)
  unfolding operate_all
  operate_all-green [] i t h = (ground (arith, h), ground (arith, t, h))
  operate_all-green (o ∷ os) i t h =
      let (success, turned) =
        operate_all-green os (operate sha256 o i) (operate-green_turned o i t) h in
      (ground (arith, success, operate-green o i), turned)

  -- GREEN is reached only through independent verification. Whatever operations are tried on a new
  -- incident, if it is green then one of them was a successful verification, and the last transition
  -- was the one from VERIFYING to GREEN.
  pub green_is_verified :
      (os : List Operation)
      → is (operate_all sha256 os start).state green ≡ true
      → (any is_success os ≡ true)
        × (turned_green (last? (operate_all sha256 os start).transitions) ≡ true)
  green_is_verified os h = operate_all-green os start refl h
