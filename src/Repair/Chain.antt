-- ===== src/Repair/Chain.antt =====
-- The history of an incident of ci_failure_orchestrator/repair_state_machine.py and its check.
use ci_failure_orchestrator.Common.{
  ℕ, ◌+◌, String, codes, Bool, true, List, [], ◌∷◌, ◌++◌, length, ◌≡◌, refl, arith,
}
use ci_failure_orchestrator.Repair.Incident.{
  RepairState, detected, dispatched, verifying, escalated, denied, authority_value, verified_state,
  Transition, RepairIncident, Payload, start, Operation, plan, dispatch, accept, verify,
  prepare_retry, transition, operate, operate_all, chain_from, verify_transition_chain,
}

chain_from-append :
    (n : ℕ) (ts : List Transition) (t : Transition)
    → chain_from n ts ≡ true
    → t.sequence ≡ n + length ts + 1
    → length (codes t.digest) ≡ 64
    → chain_from n (ts ++ t ∷ []) ≡ true
unfolding chain_from
chain_from-append n [] t c s d = ground (arith, s, d)
chain_from-append n (u ∷ ts) t c s d = ground (arith, c, s, d, chain_from-append u.sequence ts t)

module _ (sha256 : Payload → String)
    (digests : (p : Payload) → length (codes (sha256 p)) ≡ 64) where
  abbrev chained : RepairIncident → Bool
  chained i = verify_transition_chain i.transitions

  transition-chained :
      (to : RepairState) (reason : String) (i : RepairIncident)
      → chained i ≡ true
      → chained (transition sha256 to reason i) ≡ true
  unfolding transition verify_transition_chain
  transition-chained to reason i c = chain_from-append 0 i.transitions _ c (omega arith) (digests _)

  operate-chained :
      (o : Operation) (i : RepairIncident) → chained i ≡ true → chained (operate sha256 o i) ≡ true
  unfolding operate
  operate-chained (plan d) i c = transition-chained _ _ (record i { attempt = i.attempt + 1 }) c
  operate-chained (dispatch a key) i c =
      ground (arith, c, transition-chained dispatched (authority_value a) i c)
  operate-chained (accept r) i c =
      let charged : RepairIncident = record i { cost_spent_usd = i.cost_spent_usd + r.cost_usd } in
      ground (
        arith,
        c,
        transition-chained denied "worker_result_failed_safety_gate" charged c,
        transition-chained escalated "worker_proposed_no_patch" charged c,
        transition-chained verifying "candidate_patch_ready" charged c,
      )
  operate-chained (verify v) i c =
      ground (arith, c, transition-chained (verified_state v).0 (verified_state v).1 i c)
  operate-chained prepare_retry i c =
      ground (arith, c, transition-chained detected "bounded_retry" i c)

  operate_all-chained :
      (os : List Operation) (i : RepairIncident)
      → chained i ≡ true
      → chained (operate_all sha256 os i) ≡ true
  unfolding operate_all
  operate_all-chained [] i c = c
  operate_all-chained (o ∷ os) i c =
      operate_all-chained os (operate sha256 o i) (operate-chained o i c)

  -- The history of an incident passes its check. If a digest has 64 characters, then after any
  -- operations on a new incident `verify_transition_chain` accepts its transitions.
  pub history_verifies :
      (os : List Operation)
      → verify_transition_chain (operate_all sha256 os start).transitions ≡ true
  unfolding verify_transition_chain chain_from
  history_verifies os = operate_all-chained os start refl
