-- ===== src/Utils/Sort/Laws.antt =====
-- A run of `SortSlice` reorders the slice, and leaves all of it in order.
use mathlib.Core.List.{Perm}
use mathlib.Core.List.Perm
use dftp.Base.{
  ℕ, zero, suc, Bool, false, List, [], ◌∷◌, some, returns, ◌≡◌, refl, arith, Option-cases, inl, inr,
  All,
}
use dftp.Base.Perms.{AllPairs}
use dftp.Utils.Sort.{get_elem?, set, swap, Swaps, unchanged, swapped, less, InOrder}

module _ {A : Type 0} where
  -- Writing `v` over `a`.
  set-perm :
      (xs : List A) (i : ℕ) (a v : A) → get_elem? xs i ≡ some a → Perm (a ∷ set xs i v) (v ∷ xs)
  set-perm [] i a v h = cc
  set-perm (x ∷ xs) zero a v h =
      let e : a ≡ x = cc in Perm.trans (Perm.swap v a xs) (Perm.cons v (Perm.cons' e Perm.rfl))
  set-perm (x ∷ xs) (suc i) a v h =
      Perm.trans (Perm.swap x a (set xs i v))
        (Perm.trans (Perm.cons x (set-perm xs i a v h)) (Perm.swap v x xs))

  get_elem?-set :
      (xs : List A) (i j : ℕ) (a b : A)
      → get_elem? xs i ≡ some a
      → get_elem? xs j ≡ some b
      → get_elem? (set xs i b) j ≡ some b
  get_elem?-set [] i j a b h k = cc
  get_elem?-set (x ∷ xs) zero zero a b h k = refl
  get_elem?-set (x ∷ xs) zero (suc j) a b h k = k
  get_elem?-set (x ∷ xs) (suc i) zero a b h k = k
  get_elem?-set (x ∷ xs) (suc i) (suc j) a b h k = get_elem?-set xs i j a b h k

  exchanged :
      (xs : List A) (i j : ℕ) (a b : A)
      → get_elem? xs i ≡ some a
      → get_elem? xs j ≡ some b
      → Perm xs (set (set xs i b) j a)
  exchanged xs i j a b h k = Perm.symm (
      Perm.cons_inv (
        Perm.trans (set-perm (set xs i b) j b a (get_elem?-set xs i j a b h k))
          (set-perm xs i a b h)))

  swap-perm : (xs zs : List A) (i j : ℕ) → swap xs i j ≡ returns zs → Perm xs zs
  unfolding swap
  swap-perm xs zs i j e = elim (Option-cases (get_elem? xs i)) [
    | inl h ↦ ground arith
    | inr (a, h) ↦ elim (Option-cases (get_elem? xs j)) [
      | inl k ↦ ground arith
      | inr (b, k) ↦
          let z : set (set xs i b) j a ≡ zs = ground arith in rw (← z) (exchanged xs i j a b h k)
    ]
  ]

  pub Swaps-perm : (xs ys : List A) → Swaps xs ys → Perm xs ys
  Swaps-perm xs ys unchanged = Perm.refl xs
  Swaps-perm xs ys (swapped {ys = us} s i j e) =
      Perm.trans (Swaps-perm xs us s) (swap-perm us ys i j e)

  module _ (less_func : A → A → Bool)
      (less_trans : (a b c : A)
        → less_func b a ≡ false
        → less_func c b ≡ false
        → less_func c a ≡ false) where
    before_rest :
        (x y : A) (xs : List A)
        → less_func y x ≡ false
        → All (λ z. less_func z y ≡ false) xs
        → All (λ z. less_func z x ≡ false) xs
    before_rest x y [] h hs = tt
    before_rest x y (z ∷ xs) h (k, hs) = (less_trans x y z h k, before_rest x y xs h hs)

    InOrder-tail : (x : A) (xs : List A) → InOrder less_func (x ∷ xs) → InOrder less_func xs
    unfolding less
    InOrder-tail x xs h i lt = h (suc i) (omega arith)

    InOrder-head : (x y : A) (xs : List A) → InOrder less_func (x ∷ y ∷ xs) → less_func y x ≡ false
    unfolding less
    InOrder-head x y xs h =
        let e : returns (less_func y x) ≡ returns false = h 0 (omega arith) in cc

    -- Of elements in order, none is less than any before it.
    pub InOrder-AllPairs :
        (xs : List A) → InOrder less_func xs → AllPairs (λ a b. less_func b a ≡ false) xs
    InOrder-AllPairs [] h = tt
    InOrder-AllPairs (x ∷ []) h = (tt, tt)
    InOrder-AllPairs (x ∷ y ∷ xs) h =
        let rest = InOrder-AllPairs (y ∷ xs) (InOrder-tail x (y ∷ xs) h) in
        let first = InOrder-head x y xs h in ((first, before_rest x y xs first rest.0), rest)
