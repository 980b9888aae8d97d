-- ===== src/Governed/Endings.antt =====
-- The branches that end a round of the governed pipeline (ci_failure_orchestrator/governed/pipeline.py).
use ci_failure_orchestrator.Common.{
  ℕ, ◌+◌, ◌-◌, ◌≤◌, ◌<◌, String, true, false, ◌&&◌, ◌||◌, Option, none, some, leb, ◌≡◌, refl, sym,
  ◌⊎◌, inl, inr, arith,
}
use mathlib.Core.Bool.{false≢true}
use ci_failure_orchestrator.Lifecycle.{transition}
use ci_failure_orchestrator.Loops.{Step, Holds, if_applied}
use ci_failure_orchestrator.Governed.States.{
  planned, evaluating, policy_review, awaiting_human, succeeded, failed, is, allowed,
}
use ci_failure_orchestrator.Governed.Defs.{
  RepairProposal, FailureClassification, EvaluationResult, PolicyOutcome, approve, reject, escalate,
  retry, PolicyDecision,
}
use ci_failure_orchestrator.Governed.Retry.{RetryBudget, decide, repeated}
use ci_failure_orchestrator.Governed.Outcomes.{
  PipelineResult, Pipeline, PipelineError, Attempt, escalate_to_human, after_decision, decide_retry,
  by_outcome, after_policy,
}
use ci_failure_orchestrator.Governed.Accounts.{
  approves, passes, is_given, expected_error, Tally, limit_reached,
}

-- What is shown of a classification, a proposal, an evaluation and a policy decision that a success rests on.
abbrev pub Grounds : Type 1
Grounds = FailureClassification → RepairProposal → EvaluationResult → PolicyDecision → Type 0

-- A result rests on its classification, a proposal, an evaluation and a decision of which the grounds hold.
pub record RestsOn (Holds : Grounds) (r : PipelineResult) : Type 0 where
  pub proposal : RepairProposal
  pub evaluation : EvaluationResult
  pub decision : PolicyDecision
  pub proposed : r.proposal ≡ some proposal
  pub evaluated : r.evaluation ≡ some evaluation
  pub decided : r.policy ≡ some decision
  pub grounds : Holds r.classification proposal evaluation decision

module _ (start : RetryBudget) (Fit : Grounds) where
  -- What a result says: success exactly if the policy approved and the evaluation passed; otherwise it is
  -- failed or with people, who then have an escalation. The saved state is that of the result.
  pub record Accounts (r : PipelineResult) (p : Pipeline) : Type 0 where
    pub says : is r.state succeeded ≡ (approves r.policy && passes r.evaluation)
    pub closed : (is r.state succeeded || is r.state failed || is r.state awaiting_human) ≡ true
    pub stored : p.saved ≡ some (r.state, is r.state awaiting_human)
    pub handed_over : is_given r.escalation ≡ is r.state awaiting_human
    pub fits : is r.state succeeded ≡ true → RestsOn Fit r
    pub bounded : r.attempts ≤ start.attempts_used + start.repeated_failure_limit

  module _ (fingerprint : String) where
    -- The pipeline at the head of its loop.
    pub record Ready (p : Pipeline) : Type 0 where
      pub can_plan : allowed p.machine.status planned ≡ true
      pub seen : ℕ
      pub tally : Tally start fingerprint p.retry_budget seen
      pub few : seen < start.repeated_failure_limit

    abbrev pub left : Pipeline → ℕ
    left p = start.max_attempts - p.retry_budget.attempts_used

    -- Behind a round that began with `used` attempts.
    abbrev pub Kept : ℕ → Step Pipeline PipelineResult PipelineError → Type 0
    Kept used = Holds Ready left Accounts expected_error (start.max_attempts - used)

    escalate-Kept :
        (reason : String) (k : FailureClassification) (a : Attempt) (p : Pipeline) (n used : ℕ)
        → allowed p.machine.status awaiting_human ≡ true
        → (approves p.policy_decision && a.evaluation.passed) ≡ false
        → Tally start fingerprint p.retry_budget n
        → n ≤ start.repeated_failure_limit
        → Kept used (escalate_to_human reason k a p)
    unfolding transition
    escalate-Kept reason k a p n used can unremedied t few = rw can record {
      says = sym unremedied;
      closed = refl;
      stored = refl;
      handed_over = refl;
      fits = λ h. absurd (false≢true h);
      bounded = ground (arith, t.used);
    }

    retry_when :
        (ev : EvaluationResult) (b : RetryBudget)
        → (decide false false false (some ev) true b).should_retry ≡ true
        → (leb b.max_attempts b.attempts_used ≡ false) × (ev.passed ≡ false) × (repeated b ≡ false)
    unfolding decide
    retry_when ev b h = (ground arith, ground arith, ground arith)

    few_left :
        (b : RetryBudget) (n : ℕ)
        → Tally start fingerprint b n
        → 1 ≤ start.repeated_failure_limit
        → repeated b ≡ false
        → n < start.repeated_failure_limit
    few_left b n t positive fresh =
        ground (arith, limit_reached start fingerprint b n (start.repeated_failure_limit - 1) t)

    pub decide_retry-Kept :
        (k : FailureClassification) (a : Attempt) (p : Pipeline) (n used : ℕ)
        → ((p.machine.status ≡ evaluating) ⊎ (p.machine.status ≡ policy_review))
        → (approves p.policy_decision && a.evaluation.passed) ≡ false
        → Tally start fingerprint p.retry_budget n
        → n ≤ start.repeated_failure_limit
        → 1 ≤ start.repeated_failure_limit
        → p.retry_budget.attempts_used ≡ used + 1
        → Kept used (decide_retry k a p)
    unfolding decide_retry after_decision transition
    decide_retry-Kept k a p n used st unremedied t few positive e =
        if_applied (Kept used)
          (decide false false false (some a.evaluation) true p.retry_budget).should_retry _ _ _
          (λ again.
            let (left_over, down, fresh) = retry_when a.evaluation p.retry_budget again in
            let fewer = few_left p.retry_budget n t positive fresh in
            elim st [
              | inl here ↦ rw here (
                record { can_plan = refl; seen = n; tally = t; few = fewer },
                ground (arith, t.same_max),
              )
              | inr here ↦ rw here (
                record { can_plan = refl; seen = n; tally = t; few = fewer },
                ground (arith, t.same_max),
              )
            ])
          (λ over. elim st [
            | inl here ↦ escalate-Kept _ k a p n used (rw here refl) unremedied t few
            | inr here ↦ escalate-Kept _ k a p n used (rw here refl) unremedied t few
          ])

    by_outcome-Kept :
        (k : FailureClassification) (a : Attempt) (d : PolicyDecision) (o : PolicyOutcome)
        (p : Pipeline) (n used : ℕ)
        → Fit k a.proposal a.evaluation d
        → p.policy_decision ≡ some d
        → d.outcome ≡ o
        → p.machine.status ≡ policy_review
        → a.evaluation.passed ≡ true
        → Tally start fingerprint p.retry_budget n
        → n ≤ start.repeated_failure_limit
        → 1 ≤ start.repeated_failure_limit
        → p.retry_budget.attempts_used ≡ used + 1
        → Kept used (by_outcome k a o p)
    unfolding by_outcome transition
    by_outcome-Kept k a d approve p n used fit given o st passed t few positive e = rw st record {
      says = rw (given, o, passed) refl;
      closed = refl;
      stored = refl;
      handed_over = refl;
      fits = λ _. record {
        proposal = a.proposal;
        evaluation = a.evaluation;
        decision = d;
        proposed = refl;
        evaluated = refl;
        decided = given;
        grounds = fit;
      };
      bounded = ground (arith, t.used);
    }
    by_outcome-Kept k a d escalate p n used fit given o st passed t few positive e =
        escalate-Kept _ k a _ n used (rw st refl) (rw (given, o) refl) t few
    by_outcome-Kept k a d reject p n used fit given o st passed t few positive e = rw st record {
      says = rw (given, o) refl;
      closed = refl;
      stored = refl;
      handed_over = refl;
      fits = λ h. absurd (false≢true h);
      bounded = ground (arith, t.used);
    }
    by_outcome-Kept k a d retry p n used fit given o st passed t few positive e =
        decide_retry-Kept k a p n used (inr st) (rw (given, o) refl) t few positive e

    pub after_policy-Kept :
        (k : FailureClassification) (a : Attempt) (d : Option PolicyDecision) (p : Pipeline)
        (n used : ℕ)
        → ((d' : PolicyDecision) → d ≡ some d' → Fit k a.proposal a.evaluation d')
        → p.machine.status ≡ policy_review
        → a.evaluation.passed ≡ true
        → Tally start fingerprint p.retry_budget n
        → n ≤ start.repeated_failure_limit
        → 1 ≤ start.repeated_failure_limit
        → p.retry_budget.attempts_used ≡ used + 1
        → Kept used (after_policy k a d p)
    unfolding after_policy
    after_policy-Kept k a none p n used fit st passed t few positive e = refl
    after_policy-Kept k a (some d) p n used fit st passed t few positive e =
        by_outcome-Kept k a d d.outcome (record p { policy_decision = some d }) n used (fit d refl)
          refl refl st passed t few positive e
