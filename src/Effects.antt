-- ===== src/Effects.antt =====
-- Methods that change an object and may raise: what was written before an exception stays written.
use mec_measurements.Prelude.{Option, none, some, ◌≡◌, refl, ◌⊎◌, inl, inr}

-- The exceptions of Python that the modelled code can meet.
pub data Exception : Type 0 where
  attribute_error key_error type_error index_error integrity_error name_error multiple_results
        value_error os_error runtime_error zero_division_error called_process_error :
      Exception

pub data Result (A : Type 0) : Type 0 where
  return : A → Result A
  raise : Exception → Result A

abbrev pub Action : Type 0 → Type 0 → Type 0
Action S A = S → Result A × S

module _ {S A : Type 0} where
  abbrev pub pure : A → Action S A
  pure a s = (return a, s)

  abbrev pub throw : Exception → Action S A
  throw e s = (raise e, s)

  abbrev pub gets : (S → A) → Action S A
  gets f s = (return (f s), s)

  -- A value that the code uses as an object: `None` raises.
  abbrev pub needed : Exception → Option A → Action S A
  needed e none s = (raise e, s)
  needed e (some a) s = (return a, s)

abbrev pub modify : {S : Type 0} → (S → S) → Action S (Unit {0})
modify f s = (return tt, f s)

abbrev pub skip : {S : Type 0} → Action S (Unit {0})
skip s = (return tt, s)

module _ {S A B : Type 0} where
  abbrev pub and_then : Result A → (A → Action S B) → Action S B
  and_then (return a) f s = f a s
  and_then (raise e) f s = (raise e, s)

  infixl 5 ◌>>=◌ ◌>>◌
  abbrev pub ◌>>=◌ : Action S A → (A → Action S B) → Action S B
  (m >>= f) s = let (r, s') = m s in and_then r f s'

  abbrev pub ◌>>◌ : Action S A → Action S B → Action S B
  m >> n = m >>= λ _. n

pub Result-cases :
    {A : Type 0} (r : Result A) → ((a : A) × (r ≡ return a)) ⊎ ((e : Exception) × (r ≡ raise e))
Result-cases (return a) = inl (a, refl)
Result-cases (raise e) = inr (e, refl)
