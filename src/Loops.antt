-- ===== src/Loops.antt =====
-- Methods whose statements may return or raise, and their `while True` loops (trust_gateway.py,
-- governed/pipeline.py). A loop runs on fuel; `loop-Ends` is the rule by which it has enough.
use ci_failure_orchestrator.Common.{
  ℕ, ◌<◌, zero, suc, Bool, true, false, if◌then◌else◌, ◌≡◌, refl, arith,
}

-- How statements end on a state: they go on, return a result, or raise.
pub data Step (S R E : Type 0) : Type 0 where
  next : S → Step S R E
  done : R → S → Step S R E
  raised : E → Step S R E

abbrev pub Round : Type 0 → Type 0 → Type 0 → Type 0
Round S R E = S → Step S R E

-- What a loop comes to; a result with the state as it is then.
pub data Run (S R E : Type 0) : Type 0 where
  returned : R → S → Run S R E
  failed : E → Run S R E
  out_of_fuel : Run S R E

infixl 10 ◌>>◌
module _ {S R E : Type 0} where
  abbrev pub go_on : Round S R E → Step S R E → Step S R E
  go_on f (next s) = f s
  go_on f (done r s) = done r s
  go_on f (raised x) = raised x

  abbrev pub ◌>>◌ : Round S R E → Round S R E → Round S R E
  ◌>>◌ m n s = go_on n (m s)

  abbrev pub raise : E → Round S R E
  raise x s = raised x

  -- A conditional statement.
  pub if_applied :
      (P : Step S R E → Type 0) (b : Bool) (x y : Round S R E) (s : S)
      → (b ≡ true → P (x s))
      → (b ≡ false → P (y s))
      → P ((if b then x else y) s)
  if_applied P true x y s f g = f refl
  if_applied P false x y s f g = g refl

  -- A statement that may raise, and what follows it.
  pub unless_raised :
      (P : Step S R E → Type 0) (b : Bool) (x : E) (f : Round S R E) (s : S)
      → P (raised x)
      → P (f s)
      → P (go_on f (if b then raised x else next s))
  unless_raised P true x f s h k = h
  unless_raised P false x f s h k = k

  abbrev pub looped : (S → Run S R E) → Step S R E → Run S R E
  looped again (next s) = again s
  looped again (done r s) = returned r s
  looped again (raised x) = failed x

  unfoldable pub loop : Round S R E → ℕ → S → Run S R E
  loop body zero s = out_of_fuel
  loop body (suc fuel) s = looped (loop body fuel) (body s)

  -- What a run returns, if it returns, satisfies a predicate.
  abbrev pub Returns : (R → S → Type 0) → Run S R E → Type 0
  Returns Q (returned r s) = Q r s
  Returns Q _ = Unit

  pub Returns-weakens :
      {P Q : R → S → Type 0}
      → ((r : R) (s : S) → P r s → Q r s)
      → (x : Run S R E) → Returns P x
      → Returns Q x
  Returns-weakens f (returned r s) h = f r s h
  Returns-weakens f (failed x) h = tt
  Returns-weakens f out_of_fuel h = tt

  -- Whether a run ends, with a result or with one of the exceptions that are expected.
  abbrev pub stops : (E → Bool) → Run S R E → Bool
  stops expected (returned r s) = true
  stops expected (failed x) = expected x
  stops expected out_of_fuel = false

  -- A rule for loops: an invariant `P` with a measure, a postcondition `Q` and the expected exceptions.
  module _ (P : S → Type 0) (measure : S → ℕ) (Q : R → S → Type 0) (expected : E → Bool) where
    abbrev pub Holds : ℕ → Step S R E → Type 0
    Holds n (next s) = P s × (measure s < n)
    Holds n (done r s) = Q r s
    Holds n (raised x) = expected x ≡ true

    abbrev pub Ends : Run S R E → Type 0
    Ends (returned r s) = Q r s
    Ends (failed x) = expected x ≡ true
    Ends out_of_fuel = true ≡ false

    after_round :
        (body : Round S R E) (fuel n : ℕ) (s : Step S R E)
        → ((s : S) → P s → measure s < fuel → Ends (loop body fuel s))
        → Holds n s
        → n < suc fuel
        → Ends (looped (loop body fuel) s)
    after_round body fuel n (next s) rest h few = rest s h.0 (ground arith)
    after_round body fuel n (done r s) rest h few = h
    after_round body fuel n (raised x) rest h few = h

    pub loop-Ends :
        (body : Round S R E)
        → ((s : S) → P s → Holds (measure s) (body s))
        → (fuel : ℕ) (s : S) → P s
        → measure s < fuel
        → Ends (loop body fuel s)
    unfolding loop
    loop-Ends body keeps zero s p few = ground arith
    loop-Ends body keeps (suc fuel) s p few =
        after_round body fuel (measure s) (body s) (loop-Ends body keeps fuel) (keeps s p) few

    pub Ends-stops : (r : Run S R E) → Ends r → stops expected r ≡ true
    Ends-stops (returned r s) h = refl
    Ends-stops (failed x) h = h
    Ends-stops out_of_fuel h = cc

    pub Ends-Returns : (r : Run S R E) → Ends r → Returns Q r
    Ends-Returns (returned r s) h = h
    Ends-Returns (failed x) h = tt
    Ends-Returns out_of_fuel h = tt
