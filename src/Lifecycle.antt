-- ===== src/Lifecycle.antt =====
-- What the status trackers of the program share (foundation/state_machine.py,
-- governed/state_machine.py): a status, a table of allowed transitions, and the history.
use ci_failure_orchestrator.Common.{
  String, Bool, true, false, List, [], ◌∷◌, ◌++◌, Option, none, some, ◌≡◌, refl, sym, ap, ◌∙◌,
  or_right, inl, inr, arith, if◌then◌else◌, any, Bool-cases,
}

-- `self.status` and `self.history`.
pub record Machine (S : Type 0) : Type 0 where
  pub status : S
  pub history : List (S × S × String)

abbrev pub initial : {S : Type 0} → S → Machine S
initial s = record { status = s; history = [] }

module _ {S : Type 0} (allowed : S → S → Bool) where
  -- `none` is the exception for an illegal transition; the tracker is then as it was.
  unfoldable pub transition : Machine S → S → String → Option (Machine S)
  transition m to reason =
      if allowed m.status to
      then some (record m { status = to; history = m.history ++ (m.status, to, reason) ∷ [] })
      else none

  -- A caller that goes on when a transition is refused.
  unfoldable pub attempt : Machine S → S → String → Machine S
  unfolding transition
  attempt m to reason = elim (transition m to reason) [ some m' ↦ m' | none ↦ m ]

  unfoldable pub attempt_all : Machine S → List (S × String) → Machine S
  attempt_all m [] = m
  attempt_all m ((to, reason) ∷ rest) = attempt_all (attempt m to reason) rest

  -- The history leads from `s` to `t` by allowed transitions, each from where the last one ended.
  abbrev pub Connects : S → List (S × S × String) → S → Type 0
  Connects s [] t = s ≡ t
  Connects s ((a, b, _) ∷ h) t = (a ≡ s) × (allowed a b ≡ true) × Connects b h t

  Connects-append :
      (s t u : S) (reason : String) (h : List (S × S × String))
      → Connects s h t
      → allowed t u ≡ true
      → Connects s (h ++ (t, u, reason) ∷ []) u
  Connects-append s t u reason [] c ok = (sym c, ok, refl)
  Connects-append s t u reason ((a, b, r) ∷ h) c ok =
      (c.0, c.1, Connects-append b t u reason h c.2 ok)

  attempt-allowed :
      (m : Machine S) (to : S) (reason : String)
      → allowed m.status to ≡ true
      → attempt m to reason
        ≡ record { status = to; history = m.history ++ (m.status, to, reason) ∷ [] }
  unfolding attempt
  attempt-allowed m to reason ok = ground arith

  attempt_refused :
      (m : Machine S) (to : S) (reason : String)
      → allowed m.status to ≡ false
      → attempt m to reason ≡ m
  unfolding attempt
  attempt_refused m to reason bad = ground arith

  attempt-Connects :
      (s : S) (m : Machine S) (to : S) (reason : String)
      → Connects s m.history m.status
      → Connects s (attempt m to reason).history (attempt m to reason).status
  attempt-Connects s m to reason c = elim (Bool-cases (allowed m.status to)) [
    | inl ok ↦
        rw (attempt-allowed m to reason ok) (Connects-append s m.status to reason m.history c ok)
    | inr bad ↦ rw (attempt_refused m to reason bad) c
  ]

  pub attempt_all-Connects :
      (s : S) (m : Machine S) (moves : List (S × String))
      → Connects s m.history m.status
      → Connects s (attempt_all m moves).history (attempt_all m moves).status
  unfolding attempt_all
  attempt_all-Connects s m [] c = c
  attempt_all-Connects s m ((to, reason) ∷ rest) c =
      attempt_all-Connects s (attempt m to reason) rest (attempt-Connects s m to reason c)

  -- A history that leads from outside a set of statuses into it holds an edge that enters the set.
  module _ (within : S → Bool) (entry : S → S → Bool)
      (enters : (a b : S)
        → allowed a b ≡ true
        → within a ≡ false
        → within b ≡ true
        → entry a b ≡ true) where
    pub Connects-enters :
        (s t : S) (h : List (S × S × String))
        → Connects s h t
        → within s ≡ false
        → within t ≡ true
        → any (λ e. entry e.0 e.1) h ≡ true
    Connects-enters s t [] c out inside = cc
    Connects-enters s t ((a, b, r) ∷ h) c out inside = elim (Bool-cases (within b)) [
      | inl now ↦ rw (enters a b c.1 (ap within c.0 ∙ out) now)
      | inr later ↦ or_right (entry a b) (Connects-enters b t h c.2 later inside)
    ]

  -- A set of statuses that no allowed transition leaves is never left.
  module _ (within : S → Bool)
      (stays : (a b : S) → allowed a b ≡ true → within a ≡ true → within b ≡ true) where
    attempt-within :
        (m : Machine S) (to : S) (reason : String)
        → within m.status ≡ true
        → within (attempt m to reason).status ≡ true
    unfolding attempt
    attempt-within m to reason h = ground (arith, stays m.status to)

    pub attempt_all-within :
        (m : Machine S) (moves : List (S × String))
        → within m.status ≡ true
        → within (attempt_all m moves).status ≡ true
    unfolding attempt_all
    attempt_all-within m [] h = h
    attempt_all-within m ((to, reason) ∷ rest) h =
        attempt_all-within (attempt m to reason) rest (attempt-within m to reason h)
