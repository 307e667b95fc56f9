-- ===== src/Base/Outcomes.antt =====
-- What a call of a Go function ends in. A run-time panic (an index out of range, a nil pointer, a
-- write to a nil map) is a value, and so is a recursion that has used up the fuel of its model.
use mathlib.Core.Path.{◌≡◌}

pub data Outcome {ℓ} (A : Type ℓ) : Type ℓ where
  returns : A → Outcome A
  panics : Outcome A
  out_of_fuel : Outcome A

infixl 5 ◌>>=◌
abbrev pub ◌>>=◌ {ℓ κ} : {A : Type ℓ} {B : Type κ} → Outcome A → (A → Outcome B) → Outcome B
returns a >>= f = f a
panics >>= f = panics
out_of_fuel >>= f = out_of_fuel

-- The call ends normally.
abbrev pub Returns {ℓ} : {A : Type ℓ} → Outcome A → Type ℓ
Returns {A} m = (a : A) × (m ≡ returns a)
