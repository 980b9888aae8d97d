-- ===== src/Repair/Incident.antt =====
-- The incident and its coordinator: ci_failure_orchestrator/repair_state_machine.py. The SHA-256 of a
-- transition's payload is a parameter; `deliver_idempotent` is `dispatch` and `accept_worker_result`
-- behind a delivery of the ledger, and is those two here.
use ci_failure_orchestrator.Common.{
  ℕ, ◌+◌, String, codes, Bool, true, not, ◌&&◌, ◌||◌, List, [], ◌∷◌, ◌++◌, Option, none, some,
  length, last?, ◌==◌, str_eq, if◌then◌else◌,
}
use Prim.Native.String
use ci_failure_orchestrator.Repair.Supervisor.{
  RepairAuthority, autonomous_patch, patch_requires_review, rca_only, deny, SupervisorDecision,
}

pub data RepairState : Type 0 where
  detected planned dispatched verifying rerunning green review_required escalated denied :
      RepairState

abbrev pub number : RepairState → ℕ
number detected = 0
number planned = 1
number dispatched = 2
number verifying = 3
number rerunning = 4
number green = 5
number review_required = 6
number escalated = 7
number denied = 8

abbrev pub is : RepairState → RepairState → Bool
is a b = number a == number b

pub record Transition : Type 0 where
  pub sequence : ℕ
  pub from_state : RepairState
  pub to_state : RepairState
  pub reason : String
  pub digest : String

pub record RepairIncident : Type 0 where
  pub state : RepairState
  pub attempt : ℕ
  pub cost_spent_usd : ℕ
  pub transitions : List Transition

pub record WorkerResult : Type 0 where
  pub patch_proposed : Bool
  pub cost_usd : ℕ
  pub regression_detected : Bool
  pub test_weakening_detected : Bool
  pub security_finding : Bool

pub record VerificationResult : Type 0 where
  pub targeted_tests_passed : Bool
  pub full_regression_passed : Bool
  pub policy_gate_passed : Bool
  pub ci_green : Bool
  pub security_gate_passed : Bool
  pub test_weakening_detected : Bool
  pub regression_detected : Bool

unfoldable pub successful : VerificationResult → Bool
successful v =
    v.ci_green
    && v.targeted_tests_passed
    && v.full_regression_passed
    && v.security_gate_passed
    && v.policy_gate_passed
    && not v.test_weakening_detected
    && not v.regression_detected

-- What a digest is taken of, besides the incident's identifier.
pub record Payload : Type 0 where
  pub sequence : ℕ
  pub from_state : RepairState
  pub to_state : RepairState
  pub reason : String
  pub previous_digest : String

abbrev pub start : RepairIncident
start = record { state = detected; attempt = 0; cost_spent_usd = 0; transitions = [] }

abbrev digest_of_last : Option Transition → String
digest_of_last none = "GENESIS"
digest_of_last (some t) = t.digest

-- What is done to an incident. The authority and the reasons of a plan are the supervisor's, and the
-- text of a dispatch is the key of its task.
pub data Operation : Type 0 where
  plan : SupervisorDecision → Operation
  dispatch : RepairAuthority → String → Operation
  accept : WorkerResult → Operation
  verify : VerificationResult → Operation
  prepare_retry : Operation

-- Where `plan` and `verify` lead, and for which reason.
join : List String → String
join [] = ""
join (r ∷ []) = r
join (r ∷ q ∷ rs) = String.◌++◌ r (String.◌++◌ "," (join (q ∷ rs)))

abbrev pub authority_value : RepairAuthority → String
authority_value autonomous_patch = "autonomous_patch"
authority_value patch_requires_review = "patch_requires_review"
authority_value rca_only = "rca_only"
authority_value deny = "deny"

unfoldable pub planned_state : RepairAuthority → List String → RepairState × String
unfolding join
planned_state deny reasons = (denied, join reasons)
planned_state rca_only reasons = (escalated, "rca_only")
planned_state authority reasons = (planned, authority_value authority)

unfoldable pub verified_state : VerificationResult → RepairState × String
unfolding successful
verified_state v =
    if v.test_weakening_detected || v.regression_detected
    then (denied, "verification_detected_unsafe_repair")
    else if not v.security_gate_passed
    then (denied, "security_gate_failed")
    else if not v.targeted_tests_passed || not v.full_regression_passed
    then (rerunning, "tests_failed")
    else if not v.policy_gate_passed
    then (review_required, "policy_gate_requires_review")
    else if successful v
    then (green, "canonical_success_predicate_satisfied")
    else (rerunning, "ci_still_red")

module _ (sha256 : Payload → String) where
  -- `RepairIncident.transition`.
  unfoldable pub transition : RepairState → String → RepairIncident → RepairIncident
  transition to reason i =
      let payload : Payload = record {
        sequence = length i.transitions + 1;
        from_state = i.state;
        to_state = to;
        reason = reason;
        previous_digest = digest_of_last (last? i.transitions);
      } in
      record i {
        state = to;
        transitions =
            i.transitions
            ++ record {
              sequence = length i.transitions + 1;
              from_state = i.state;
              to_state = to;
              reason = reason;
              digest = sha256 payload;
            }
              ∷ [];
      }

  -- `RepairCoordinator.plan`, given what the supervisor decides on the next attempt.
  unfoldable pub plan_next : SupervisorDecision → RepairIncident → RepairIncident
  unfolding transition
  plan_next d i =
      let (to, reason) = planned_state d.authority d.reasons in
      transition to reason (record i { attempt = i.attempt + 1 })

  -- The other operations of `RepairCoordinator`; `none` is an exception.
  unfoldable pub dispatch_task : RepairAuthority → String → RepairIncident → Option RepairIncident
  dispatch_task authority key i =
      if is i.state planned && not (str_eq key "")
      then some (transition dispatched (authority_value authority) i)
      else none

  unfoldable pub accept_worker_result : WorkerResult → RepairIncident → Option RepairIncident
  accept_worker_result r i =
      let charged : RepairIncident = record i { cost_spent_usd = i.cost_spent_usd + r.cost_usd } in
      if not (is i.state dispatched)
      then none
      else if r.regression_detected || r.test_weakening_detected || r.security_finding
      then some (transition denied "worker_result_failed_safety_gate" charged)
      else if not r.patch_proposed
      then some (transition escalated "worker_proposed_no_patch" charged)
      else some (transition verifying "candidate_patch_ready" charged)

  unfoldable pub verify_repair : VerificationResult → RepairIncident → Option RepairIncident
  verify_repair v i =
      let (to, reason) = verified_state v in
      if is i.state verifying then some (transition to reason i) else none

  unfoldable pub retry : RepairIncident → Option RepairIncident
  retry i = if is i.state rerunning then some (transition detected "bounded_retry" i) else none

  abbrev or_same : RepairIncident → Option RepairIncident → RepairIncident
  or_same i none = i
  or_same i (some j) = j

  -- One operation; one that raises changes nothing.
  unfoldable pub operate : Operation → RepairIncident → RepairIncident
  unfolding plan_next dispatch_task accept_worker_result verify_repair retry
  operate (plan d) i = plan_next d i
  operate (dispatch authority key) i = or_same i (dispatch_task authority key i)
  operate (accept r) i = or_same i (accept_worker_result r i)
  operate (verify v) i = or_same i (verify_repair v i)
  operate prepare_retry i = or_same i (retry i)

  unfoldable pub operate_all : List Operation → RepairIncident → RepairIncident
  operate_all [] i = i
  operate_all (o ∷ os) i = operate_all os (operate o i)

-- `verify_transition_chain`, behind a sequence number.
unfoldable pub chain_from : ℕ → List Transition → Bool
chain_from previous [] = true
chain_from previous (t ∷ ts) =
    t.sequence == previous + 1 && length (codes t.digest) == 64 && chain_from t.sequence ts

unfoldable pub verify_transition_chain : List Transition → Bool
unfolding chain_from
verify_transition_chain = chain_from 0
