-- ===== src/Base/Lists.antt =====
-- Lists measured by native numbers, predicates on lists, and the lemmas that the components share.
use Prim.Native.Nat.{ℕ, suc, ◌+◌}
use mathlib.Core.Path.{◌≡◌, refl, subst, sym}
use mathlib.Core.Bool.{Bool}
use mathlib.Core.List.{List, [], ◌∷◌, ◌++◌, map}
use mathlib.Core.Logic.{◌⊎◌, inl, inr}
use native.Mathlib.Omega.{arith}
use dftp.Base.Tests.{if◌then◌else◌}

module _ {ℓ} {A : Type ℓ} where
  abbrev pub length : List A → ℕ
  length [] = 0
  length (x ∷ xs) = suc (length xs)

  pub length-append : (xs ys : List A) → length (xs ++ ys) ≡ length xs + length ys
  length-append [] ys = omega arith
  length-append (x ∷ xs) ys = omega (arith, length-append xs ys)

  -- The elements that pass a Boolean test, in order.
  abbrev pub keep : (A → Bool) → List A → List A
  keep p [] = []
  keep p (x ∷ xs) = let rest = keep p xs in if p x then x ∷ rest else rest

module _ {ℓ κ} {A : Type ℓ} (P : A → Type κ) where
  abbrev pub All : List A → Type κ
  All [] = Unit
  All (x ∷ xs) = P x × All xs

  pub All-append : (xs ys : List A) → All xs → All ys → All (xs ++ ys)
  All-append [] ys hx hy = hy
  All-append (x ∷ xs) ys hx hy = (hx.0, All-append xs ys hx.1 hy)

  pub All-append_left : (xs ys : List A) → All (xs ++ ys) → All xs
  All-append_left [] ys h = tt
  All-append_left (x ∷ xs) ys h = (h.0, All-append_left xs ys h.1)

  pub All-append_right : (xs ys : List A) → All (xs ++ ys) → All ys
  All-append_right [] ys h = h
  All-append_right (x ∷ xs) ys h = All-append_right xs ys h.1

-- The predicate holds of some element.
abbrev pub Any {ℓ} : {A : Type ℓ} → (A → Type 0) → List A → Type 0
Any P [] = ⊥
Any P (x ∷ xs) = P x ⊎ Any P xs

pub All-map {ℓ κ μ} :
    {A : Type ℓ} {P : A → Type κ} {Q : A → Type μ}
    → ((a : A) → P a → Q a)
    → (xs : List A) → All P xs
    → All Q xs
All-map f [] h = tt
All-map f (x ∷ xs) h = (f x h.0, All-map f xs h.1)

pub All-both {ℓ κ μ ν} :
    {A : Type ℓ} {P : A → Type κ} {Q : A → Type μ} {R : A → Type ν}
    → ((a : A) → P a → Q a → R a)
    → (xs : List A) → All P xs
    → All Q xs
    → All R xs
All-both f [] h k = tt
All-both f (x ∷ xs) h k = (f x h.0 k.0, All-both f xs h.1 k.1)

pub All-mapped {ℓ κ μ} :
    {A : Type ℓ} {B : Type κ} (P : B → Type μ) (f : A → B) (xs : List A)
    → All (λ x. P (f x)) xs
    → All P (map f xs)
All-mapped P f [] h = tt
All-mapped P f (x ∷ xs) h = (h.0, All-mapped P f xs h.1)

-- Of some element and of all of them.
pub Any-All {ℓ} :
    {A : Type ℓ} {P Q : A → Type 0} (xs : List A) → Any P xs → All Q xs → (x : A) × P x × Q x
Any-All [] a h = absurd a
Any-All (x ∷ xs) (inl p) h = (x, p, h.0)
Any-All (x ∷ xs) (inr a) h = Any-All xs a h.1

pub Any-map {ℓ} :
    {A : Type ℓ} {P Q : A → Type 0} → ((a : A) → P a → Q a) → (xs : List A) → Any P xs → Any Q xs
Any-map f [] a = a
Any-map f (x ∷ xs) (inl p) = inl (f x p)
Any-map f (x ∷ xs) (inr a) = inr (Any-map f xs a)

module _ {A : Type 0} where
  -- The element is in the list.
  abbrev pub Among : List A → A → Type 0
  Among xs x = Any (◌≡◌ x) xs

  pub All-among : {P : A → Type 0} (xs : List A) → ((x : A) → Among xs x → P x) → All P xs
  All-among [] f = tt
  All-among (x ∷ xs) f = (f x (inl refl), All-among xs (λ y a. f y (inr a)))

  pub among-All : (P : A → Type 0) (xs : List A) {x : A} → Among xs x → All P xs → P x
  among-All P xs a h = let (y, e, p) = Any-All xs a h in subst P (sym e) p

pub Any-mapped {ℓ κ} :
    {A : Type ℓ} {B : Type κ} (P : B → Type 0) (f : A → B) (xs : List A)
    → Any (λ x. P (f x)) xs
    → Any P (map f xs)
Any-mapped P f [] a = a
Any-mapped P f (x ∷ xs) (inl p) = inl p
Any-mapped P f (x ∷ xs) (inr a) = inr (Any-mapped P f xs a)

module _ {ℓ} {A : Type ℓ} (P : A → Type 0) where
  pub Any-append_left : (xs ys : List A) → Any P xs → Any P (xs ++ ys)
  Any-append_left [] ys a = absurd a
  Any-append_left (x ∷ xs) ys (inl p) = inl p
  Any-append_left (x ∷ xs) ys (inr a) = inr (Any-append_left xs ys a)

  pub Any-append_right : (xs ys : List A) → Any P ys → Any P (xs ++ ys)
  Any-append_right [] ys a = a
  Any-append_right (x ∷ xs) ys a = inr (Any-append_right xs ys a)

pub Any-with :
    {A : Type 0} {P Q R : A → Type 0}
    → ((a : A) → P a → Q a → R a)
    → (xs : List A) → Any P xs
    → All Q xs
    → Any R xs
Any-with f [] a h = absurd a
Any-with f (x ∷ xs) (inl p) h = inl (f x p h.0)
Any-with f (x ∷ xs) (inr a) h = inr (Any-with f xs a h.1)

-- An element with the property.
pub Any-witness :
    {A : Type 0} {P : A → Type 0} (xs : List A) → Any P xs → (x : A) × Among xs x × P x
Any-witness [] a = absurd a
Any-witness (x ∷ xs) (inl p) = (x, inl refl, p)
Any-witness (x ∷ xs) (inr a) = let (y, i, p) = Any-witness xs a in (y, inr i, p)
