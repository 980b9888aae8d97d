-- ===== src/Foundation/Exec.antt =====
-- Methods that change a store on disk and may raise (foundation/durable.py, recovery.py,
-- human_decision.py). What was written before the exception stays written.
use ci_failure_orchestrator.Common.{Bool, if◌then◌else◌}

-- The exceptions of the component. `missing_key` stands for the KeyError, TypeError and other
-- ValueErrors of a state file that does not hold a run.
pub data Exception : Type 0 where
  persistence_error unsupported_schema file_not_found missing_key attribute_error : Exception

pub data Result {ℓ} (A : Type ℓ) : Type ℓ where
  ok : A → Result A
  raised : Exception → Result A

abbrev pub Exec {ℓ} : Type ℓ → Type ℓ → Type ℓ
Exec S A = S → Result A × S

module _ {ℓ} {S A : Type ℓ} where
  abbrev pub return : A → Exec S A
  return a s = (ok a, s)

  abbrev pub raise : Exception → Exec S A
  raise x s = (raised x, s)

  -- A call that only reads the store.
  abbrev pub reads : (S → Result A) → Exec S A
  reads f s = (f s, s)

-- The end of a method behind a call.
abbrev pub continue {ℓ} : {S A B : Type ℓ} → Result A → (A → Exec S B) → Exec S B
continue (ok a) f s = f a s
continue (raised x) f s = (raised x, s)

infixl 10 ◌>>=◌ ◌>>◌
abbrev pub ◌>>=◌ {ℓ} : {S A B : Type ℓ} → Exec S A → (A → Exec S B) → Exec S B
◌>>=◌ m f s = let (r, s') = m s in continue r f s'

abbrev pub ◌>>◌ {ℓ} : {S A B : Type ℓ} → Exec S A → Exec S B → Exec S B
m >> n = m >>= λ _. n

-- `if test: raise ...`.
abbrev pub raise_if : {S : Type 0} → Bool → Exception → Exec S Unit
raise_if b x s = ((if b then raised x else ok tt), s)
