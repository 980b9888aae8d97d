-- ===== src/Trust/Accounts.antt =====
-- What a round of the gateway (trust_gateway.py) keeps: how its attempts and its budget agree.
use ci_failure_orchestrator.Common.{
  ℕ, ◌+◌, ◌≤◌, ◌<◌, String, subst, if◌then◌else◌, Bool, true, false, ◌&&◌, ◌||◌, List, [], ◌∷◌,
  ◌++◌, Option, none, some, any, length, ltb, leb, if_keeps, str_eq, any-append, length-append, ◌≡◌,
  refl, sym, ap, ◌∙◌, arith,
}
use ci_failure_orchestrator.Loops.{Step, next, done, raised, go_on, if_applied, unless_raised}
use ci_failure_orchestrator.Trust.Machine.{
  budget_exhausted, verifying, retryable_failure, is, transitions,
}
use ci_failure_orchestrator.Trust.Defs.{
  ℤ, pos, negsuc, RepairProposal, is_allow, PolicyResult, EvaluationResult, RetryBudget, consume,
  AttemptRecord, GatewayResult, ToolExecutionResult, evaluate,
}
use ci_failure_orchestrator.Trust.Attempt.{
  AuditLog, logged, Statement, from_audit, Collaborators, outcome, exhausted, Gateway, GatewayError,
  invalid_transition, after_failure, fail_attempt, succeed, after_verification, attempt_of,
}

-- An attempt that the evaluation and the verification both passed.
abbrev pub verified : AttemptRecord → Bool
verified a = elim a.verification [ none ↦ false | some v ↦ a.evaluation.success && v.success ]

abbrev pub succeeded : GatewayResult → Bool
succeeded r = str_eq r.status "verified_success"

abbrev pub expected_error : GatewayError → Bool
expected_error invalid_transition = false
expected_error _ = true

-- An event in a log, whose append may raise, and what follows it.
pub noted :
    (P : Step Gateway GatewayResult GatewayError → Type 0) (log : AuditLog) (rest : Statement)
    (g : Gateway)
    → P (raised from_audit)
    → P (rest g)
    → P (go_on rest (if log.raises (length log.events) then raised from_audit else next g))
noted P log rest g = unless_raised P (log.raises (length log.events)) from_audit rest g

-- A list of which every element satisfies a predicate.
abbrev pub Each : {A : Type 0} → (A → Type 0) → List A → Type 0
Each P [] = Unit
Each P (a ∷ xs) = P a × Each P xs

Each-snoc :
    {A : Type 0} (P : A → Type 0) (xs : List A) (a : A) → Each P xs → P a → Each P (xs ++ a ∷ [])
Each-snoc P [] a h k = (k, tt)
Each-snoc P (b ∷ xs) a h k = (h.0, Each-snoc P xs a h.1 k)

module _ {Context Workspace : Type 0} (parts : Collaborators Context Workspace)
    (human_approved : Bool) where
  -- The policy allowed a proposal, in the context that was built for it.
  pub record Permitted (p : RepairProposal) (policy : PolicyResult) : Type 0 where
    pub context : Context
    pub built : parts.build_context p human_approved ≡ some context
    pub decided : parts.evaluate_policy context ≡ some policy
    pub allowed : is_allow policy.decision ≡ true

  -- The executor ran a proposal in the workspace of its attempt.
  pub record Ran (n : ℕ) (p : RepairProposal) (result : ToolExecutionResult) (left : Workspace)
      : Type 0 where
    pub workspace : Workspace
    pub isolated : parts.isolate n ≡ some workspace
    pub ran : outcome (parts.execute p workspace) ≡ some (result, left)

  -- An attempt whose proposal was allowed and run, with the evaluation of what the executor returned and
  -- the verifier's answer on the workspace that it left, if the evaluation succeeded.
  pub record Grounded (n : ℕ) (p : RepairProposal) (policy : PolicyResult) (ev : EvaluationResult)
      (ver : Option EvaluationResult) : Type 0 where
    pub result : ToolExecutionResult
    pub left : Workspace
    pub permitted : Permitted p policy
    pub ran : Ran n p result left
    pub evaluated : ev ≡ evaluate p result
    pub answered : ver ≡ (if ev.success then parts.verify p left else none)

  abbrev pub GroundedAttempt : AttemptRecord → Type 0
  GroundedAttempt a = Grounded a.attempt_number a.proposal a.policy a.evaluation a.verification

  module _ (start : RetryBudget) where
    -- A budget behind some attempts that are recorded, and some that are under way.
    pub record Tally (under_way : ℕ) (b : RetryBudget) (attempts : List AttemptRecord)
        : Type 0 where
      pub same_attempts : b.max_attempts ≡ start.max_attempts
      pub same_cost : b.max_total_cost ≡ start.max_total_cost
      pub within : b.attempts ≤ b.max_attempts
      pub paid : b.total_cost ≤ b.max_total_cost
      pub counted : start.attempts + length attempts + under_way ≡ b.attempts
      pub unverified : any verified attempts ≡ false
      pub all_grounded : Each GroundedAttempt attempts

    -- A result says success exactly if an attempt is verified; each attempt is grounded and paid for.
    pub record Accounts (r : GatewayResult) (g : Gateway) : Type 0 where
      pub says : succeeded r ≡ any verified r.attempts
      pub all_grounded : Each GroundedAttempt r.attempts
      pub spent : start.attempts + length r.attempts ≡ g.retry_budget.attempts
      pub limited : g.retry_budget.attempts ≤ start.max_attempts
      pub affordable : g.retry_budget.total_cost ≤ start.max_total_cost

    abbrev pub Good : ℕ → Step Gateway GatewayResult GatewayError → Type 0
    Good n (next g) =
        (g.state.state ≡ retryable_failure)
        × Tally 0 g.retry_budget g.attempts
        × (g.retry_budget.attempts ≡ n)
        × (n < start.max_attempts)
    Good n (done r g) = Accounts r g
    Good n (raised x) = expected_error x ≡ true

    -- Behind the `with` block, where the budget is not asked yet.
    abbrev pub Tried : ℕ → Step Gateway GatewayResult GatewayError → Type 0
    Tried n (next g) =
        (g.state.state ≡ retryable_failure)
        × Tally 0 g.retry_budget g.attempts
        × (g.retry_budget.attempts ≡ n)
    Tried n (done r g) = Accounts r g
    Tried n (raised x) = expected_error x ≡ true

    pub unsuccessful :
        {b : RetryBudget} {attempts : List AttemptRecord} (r : GatewayResult) (g : Gateway)
        → Tally 0 b attempts
        → g.retry_budget ≡ b
        → r.attempts ≡ attempts
        → succeeded r ≡ false
        → Accounts r g
    unsuccessful r g t same_budget same down = record {
      says = down ∙ sym (ap (any verified) same ∙ t.unverified);
      all_grounded = subst (Each GroundedAttempt) (sym same) t.all_grounded;
      spent = rw same (rw same_budget (ground (arith, t.counted)));
      limited = rw same_budget (ground (arith, t.within, t.same_attempts));
      affordable = rw same_budget (ground (arith, t.paid, t.same_cost));
    }

    pub exhausted-Good :
        (n : ℕ) (reason : String) (g : Gateway)
        → any (is budget_exhausted) (transitions g.state.state) ≡ true
        → Tally 0 g.retry_budget g.attempts
        → Good n (exhausted reason g)
    exhausted-Good n reason g can t = rw can (
        noted (Good n) g.audit _ _ refl (
          noted (Good n) (logged "retry_budget_exhausted" g.audit) _ _ refl
            (unsuccessful _ _ t refl refl refl)))

    after_failure-Good :
        (n : ℕ) (g : Gateway)
        → g.state.state ≡ retryable_failure
        → Tally 0 g.retry_budget g.attempts
        → g.retry_budget.attempts ≡ n
        → Good n (after_failure g)
    unfolding after_failure
    after_failure-Good n g st t e =
        if_keeps (Good n) (leb g.retry_budget.max_attempts g.retry_budget.attempts) _ _
          (λ _. exhausted-Good n _ g (rw st refl) t)
          (λ more.
            if_keeps (Good n) (g.audit.raises (length g.audit.events)) _ _ (λ _. refl)
              (λ _. (st, t, e, ground (arith, t.same_attempts))))

    pub Tried-Good :
        (n : ℕ) (s : Step Gateway GatewayResult GatewayError)
        → Tried n s
        → Good n (go_on after_failure s)
    Tried-Good n (next g) h = after_failure-Good n g h.0 h.1 h.2
    Tried-Good n (done r g) h = h
    Tried-Good n (raised x) h = h

    pub recorded :
        (b : RetryBudget) (attempts : List AttemptRecord) (a : AttemptRecord)
        → Tally 1 b attempts
        → GroundedAttempt a
        → verified a ≡ false
        → Tally 0 b (attempts ++ a ∷ [])
    recorded b attempts a t ok open_still = record {
      same_attempts = t.same_attempts;
      same_cost = t.same_cost;
      within = t.within;
      paid = t.paid;
      counted = ground (arith, t.counted, length-append attempts (a ∷ []));
      unverified = ground (arith, t.unverified, any-append verified attempts (a ∷ []));
      all_grounded = Each-snoc GroundedAttempt attempts a t.all_grounded ok;
    }

    pub fail_attempt-Tried :
        (n : ℕ) (p : RepairProposal) (policy : PolicyResult) (ev : EvaluationResult)
        (ver : Option EvaluationResult) (g : Gateway)
        → any (is retryable_failure) (transitions g.state.state) ≡ true
        → Tally 1 g.retry_budget g.attempts
        → g.retry_budget.attempts ≡ n
        → Grounded n p policy ev ver
        → elim ver [ none ↦ false | some v ↦ ev.success && v.success ] ≡ false
        → Tried n (fail_attempt n p policy ev ver g)
    unfolding fail_attempt
    fail_attempt-Tried n p policy ev ver g can t e ok open_still =
        rw can (refl, recorded _ _ _ t ok open_still, e)

    succeed-Tried :
        (n : ℕ) (p : RepairProposal) (policy : PolicyResult) (ev ver : EvaluationResult)
        (g : Gateway)
        → g.state.state ≡ verifying
        → Tally 1 g.retry_budget g.attempts
        → Grounded n p policy ev (some ver)
        → (ev.success && ver.success) ≡ true
        → Tried n (succeed n p policy ev ver g)
    unfolding succeed
    succeed-Tried n p policy ev ver g st t ok passed =
        let a = attempt_of n p policy ev (some ver) g.retry_budget in
        rw st (
          noted (Tried n) g.audit _ _ refl record {
            says = ground (arith, any-append verified g.attempts (a ∷ []));
            all_grounded = Each-snoc GroundedAttempt g.attempts a t.all_grounded ok;
            spent = ground (arith, t.counted, length-append g.attempts (a ∷ []));
            limited = ground (arith, t.within, t.same_attempts);
            affordable = ground (arith, t.paid, t.same_cost);
          })

    pub after_verification-Tried :
        (n : ℕ) (p : RepairProposal) (policy : PolicyResult) (ev : EvaluationResult)
        (ver : Option EvaluationResult) (g : Gateway)
        → g.state.state ≡ verifying
        → Tally 1 g.retry_budget g.attempts
        → g.retry_budget.attempts ≡ n
        → Grounded n p policy ev ver
        → ev.success ≡ true
        → Tried n (after_verification n p policy ev ver g)
    unfolding after_verification
    after_verification-Tried n p policy ev none g st t e ok passed = refl
    after_verification-Tried n p policy ev (some v) g st t e ok passed =
        noted (Tried n) g.audit _ _ refl (
          if_applied (Tried n) v.success _ _ _
            (λ v_passed. succeed-Tried n p policy ev v _ st t ok (rw passed v_passed))
            (λ v_failed.
              fail_attempt-Tried n p policy ev (some v) _ (rw st refl) t e ok (rw passed v_failed)))

    -- What `consume` makes of a budget.
    abbrev pub Paid : RetryBudget → List AttemptRecord → Option (Bool × RetryBudget) → Type 0
    Paid b attempts none = Unit
    Paid b attempts (some (true, b')) = Tally 1 b' attempts × (b'.attempts ≡ b.attempts + 1)
    Paid b attempts (some (false, b')) = Unit

    pub consume-Paid :
        (late : Bool) (cost : ℤ) (b : RetryBudget) (attempts : List AttemptRecord)
        → Tally 0 b attempts
        → Paid b attempts (consume late cost b)
    unfolding consume
    consume-Paid late (negsuc _) b attempts t = tt
    consume-Paid late (pos cost) b attempts t =
        if_keeps (Paid b attempts)
          (leb b.max_attempts b.attempts || ltb b.max_total_cost (b.total_cost + cost)) _ _
          (λ _. tt)
          λ affords.
            if_keeps (Paid b attempts) late _ _ (λ _. tt)
              λ _. (
                record {
                  same_attempts = t.same_attempts;
                  same_cost = t.same_cost;
                  within = ground arith;
                  paid = ground arith;
                  counted = ground (arith, t.counted);
                  unverified = t.unverified;
                  all_grounded = t.all_grounded;
                },
                refl,
              )
