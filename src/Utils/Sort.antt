-- ===== src/Utils/Sort.antt =====
-- src/dftp/utils/sort.go: what sort.Sort is given to sort a slice through reflection. Its run is any
-- sequence of calls of `Swap` that ends in order by `Less`, which is what Go documents of sort.Sort.
pub mod Laws
use dftp.Base.{
  ℕ, zero, suc, ◌+◌, ◌<◌, Bool, false, List, [], ◌∷◌, Option, none, some, length, Outcome, returns,
  panics, ◌>>=◌, ◌≡◌, refl,
}

module _ {A : Type 0} where
  abbrev pub get_elem? : List A → ℕ → Option A
  get_elem? [] i = none
  get_elem? (x ∷ xs) zero = some x
  get_elem? (x ∷ xs) (suc i) = get_elem? xs i

  abbrev pub set : List A → ℕ → A → List A
  set [] i v = []
  set (x ∷ xs) zero v = v ∷ xs
  set (x ∷ xs) (suc i) v = x ∷ set xs i v

  -- reflect.Value.Index panics out of range.
  abbrev pub index : List A → ℕ → Outcome A
  index xs i = elim (get_elem? xs i) [ none ↦ panics | some x ↦ returns x ]

  -- `reflectElems`
  abbrev pub reflect_elems : List A → ℕ → ℕ → Outcome (A × A)
  reflect_elems xs i j = index xs i >>= λ a. index xs j >>= λ b. returns (a, b)

  -- `Swap`
  unfoldable pub swap : List A → ℕ → ℕ → Outcome (List A)
  swap xs i j = reflect_elems xs i j >>= λ (a, b). returns (set (set xs i b) j a)

  -- Calls of `Swap`, one after another.
  pub data Swaps (xs : List A) : List A → Type 0 where
    unchanged : Swaps xs xs
    swapped : {ys zs : List A} → Swaps xs ys → (i j : ℕ) → swap ys i j ≡ returns zs → Swaps xs zs

  module _ (less_func : A → A → Bool) where
    -- `Less`
    unfoldable pub less : List A → ℕ → ℕ → Outcome Bool
    less xs i j = reflect_elems xs i j >>= λ (a, b). returns (less_func a b)

    -- No element is less than the one before it.
    abbrev pub InOrder : List A → Type 0
    InOrder xs = (i : ℕ) → suc i < length xs → less xs (suc i) i ≡ returns false

    -- `SortSlice`: what it can make of a slice.
    abbrev pub SortSlice : List A → List A → Type 0
    SortSlice xs ys = Swaps xs ys × InOrder ys

swap_test :
    (swap {A = ℕ} (5 ∷ 6 ∷ 7 ∷ []) 2 0 ≡ returns (7 ∷ 6 ∷ 5 ∷ []))
    × (swap {A = ℕ} (5 ∷ 6 ∷ 7 ∷ []) 1 1 ≡ returns (5 ∷ 6 ∷ 7 ∷ []))
    × (swap {A = ℕ} (5 ∷ 6 ∷ 7 ∷ []) 1 3 ≡ panics)
unfolding swap
swap_test = (refl, refl, refl)
