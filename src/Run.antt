-- ===== src/Run.antt =====
-- A run of C code: its result, or undefined behaviour.
use hz_platform.Prelude.{◌≡◌}

pub data Fault : Type 0 where
  heap_overflow use_after_free out_of_bounds null_pointer uninitialized aborted : Fault

pub data Run {ℓ} (Result : Type ℓ) : Type ℓ where
  fault : Fault → Run Result
  ok : Result → Run Result

module _ {ℓ κ} {R : Type ℓ} where
  -- The run's result satisfies `Good`, if there is one.
  abbrev pub Post : (R → Type κ) → Run R → Type κ
  Post Good (fault reason) = Unit
  Post Good (ok value) = Good value

  -- The run has a result, and it satisfies `Good`.
  abbrev pub Returns : Run R → (R → Type κ) → Type (ℓ ⊔ κ)
  Returns run Good = (value : R) × (run ≡ ok value) × Good value

module _ {ℓ κ} {R : Type ℓ} {S : Type κ} where
  infixl 5 ◌>>=◌
  abbrev pub ◌>>=◌ : Run R → (R → Run S) → Run S
  fault reason >>= next = fault reason
  ok value >>= next = next value

module _ {ℓ κ} {R S : Type ℓ} (Before : R → Type κ) (After : S → Type κ) where
  pub Post-bind :
      (run : Run R) (next : R → Run S)
      → Post Before run
      → ((value : R) → Before value → Post After (next value))
      → Post After (run >>= next)
  Post-bind (fault reason) next h k = tt
  Post-bind (ok value) next h k = k value h
