-- ===== src/Base/Equality.antt =====
-- Go's `==` on strings (and on lists of them, for the statements), and text as lists of bytes.
use Prim.Native.Nat.{ℕ}
use Prim.Native.Char.{code}
use Prim.Native.String.{String}
use mathlib.Core.Path.{◌≡◌, refl}
use mathlib.Core.Logic.{ite, dite, ◌≢◌}
use mathlib.Core.Bool.{Bool, true, false}
use mathlib.Core.List.{List, [], ◌∷◌}
use native.Mathlib.Decide.{ℕ_discrete}
use native.Mathlib.Omega.{arith}

-- A type whose equality is decided.
pub record Eq {ℓ} (A : Type ℓ) : Type ℓ where
  pub dec : Discrete A

infix 50 ◌==◌
abbrev pub ◌==◌ {ℓ} : {A : Type ℓ} ⦃e : Eq A⦄ → A → A → Bool
◌==◌ ⦃e⦄ a b = ite (e.dec a b) true false

module _ {ℓ} {A : Type ℓ} (d : Discrete A) where
  list_dec : Discrete (List A)
  list_dec [] [] = yes refl
  list_dec [] (y ∷ ys) = no (λ p. cc)
  list_dec (x ∷ xs) [] = no (λ p. cc)
  list_dec (x ∷ xs) (y ∷ ys) =
      let rest = list_dec xs ys in
      dite (d x y) (λ p. dite rest (λ q. yes (cc)) (λ n. no (λ e. n (cc)))) (λ n. no (λ e. n (cc)))

-- A Go string: its bytes.
abbrev pub Text : Type 0
Text = List ℕ

-- The bytes of a literal in ASCII.
abbrev pub codes : String → Text
codes String.[] = []
codes (String.◌∷◌ c s) = code c ∷ codes s

instance unfoldable pub byte_eq : Eq ℕ
unfolding ℕ_discrete
byte_eq = record { dec = ℕ_discrete }

instance unfoldable pub text_eq : Eq Text
unfolding list_dec ℕ_discrete
text_eq = record { dec = list_dec ℕ_discrete }

instance unfoldable pub path_eq : Eq (List Text)
unfolding list_dec ℕ_discrete
path_eq = record { dec = list_dec (list_dec ℕ_discrete) }

pub ==_refl {ℓ} : {A : Type ℓ} ⦃e : Eq A⦄ (a : A) → (a == a) ≡ true
==_refl a = ground arith

pub ==_ne {ℓ} : {A : Type ℓ} ⦃e : Eq A⦄ (a b : A) → a ≢ b → (a == b) ≡ false
==_ne a b h = ground arith

test_eq : (codes "abc" == codes "abc") ≡ true
unfolding text_eq
test_eq = refl
