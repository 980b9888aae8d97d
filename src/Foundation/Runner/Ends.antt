-- ===== src/Foundation/Runner/Ends.antt =====
-- How a block of the `try` statement of ci_failure_orchestrator/foundation/runner.py ends: what holds of
-- its value and state, and of the state in which it raises.
use ci_failure_orchestrator.Common.{String, Bool, true, Option, none, some, ◌≡◌, refl, arith}
use ci_failure_orchestrator.Lifecycle
use ci_failure_orchestrator.Lifecycle.{Machine}
use ci_failure_orchestrator.Foundation.StateMachine.{RunStatus, transition}
use ci_failure_orchestrator.Foundation.Runner.{
  Cause, illegal_transition, failed_call, RunState, Run, ok, raised, M, ◌>>=◌, calls, move,
}

pub transition_status :
    (m : Machine RunStatus) (to : RunStatus) (reason : String) (m' : Machine RunStatus)
    → transition m to reason ≡ some m'
    → m'.status ≡ to
unfolding transition Lifecycle.transition
transition_status m to reason m' h = ground (arith, h)

-- What holds at the end of a block: `Q` of a value and the state, `E` of the state of an exception.
abbrev pub Ends :
    {A : Type 0} → (A → RunState → Type 0) → (Cause → RunState → Type 0) → Run A → Type 0
Ends Q E (ok a s) = Q a s
Ends Q E (raised c s) = E c s

pub bind-Ends :
    {A B : Type 0} (Q : A → RunState → Type 0) (Q' : B → RunState → Type 0)
    (E : Cause → RunState → Type 0) (m : M A) (f : A → M B) (s : RunState)
    → Ends Q E (m s)
    → ((a : A) (s' : RunState) → Q a s' → Ends Q' E (f a s'))
    → Ends Q' E ((m >>= f) s)
bind-Ends {A = A} {B = B} Q Q' E m f s h k = through (m s) h
  where
    through :
        (r : Run A)
        → Ends Q E r
        → Ends Q' E (elim r as (λ r. Run B) [ ok a s' ↦ f a s' | raised c s' ↦ raised c s' ])
    through (ok a s') h = k a s' h
    through (raised c s') h = h

module _ {B : Type 0} (Q : B → RunState → Type 0) (E : Cause → RunState → Type 0) where
  -- A transition and what follows it.
  pub move-Ends :
      (to : RunStatus) (reason : String) (s : RunState) (f : Bool → M B)
      → E illegal_transition s
      → ((m : Machine RunStatus)
          → m.status ≡ to
          → Ends Q E (f true (record s { machine = m; status = m.status })))
      → Ends Q E ((move to reason >>= f) s)
  unfolding move
  move-Ends to reason s f e k =
      through (transition s.machine to reason) (transition_status s.machine to reason)
    where
      through :
          (o : Option (Machine RunStatus))
          → ((m : Machine RunStatus) → o ≡ some m → m.status ≡ to)
          → Ends Q E
              (elim (elim o as (λ o. Run Bool) [
                | none ↦ raised illegal_transition s
                | some m ↦ ok true (record s { machine = m; status = m.status })
              ])
                as (λ r. Run B) [ ok a s' ↦ f a s' | raised c s' ↦ raised c s' ])
      through none h = e
      through (some m) h = k m (h m refl)

  -- A call of a collaborator and what follows it.
  pub calls-Ends :
      {A : Type 0} (o : Option A) (s : RunState) (f : A → M B)
      → E failed_call s
      → ((a : A) → o ≡ some a → Ends Q E (f a s))
      → Ends Q E ((calls o >>= f) s)
  calls-Ends none s f e k = e
  calls-Ends (some a) s f e k = k a refl
