-- ===== src/Base/Assoc.antt =====
-- Go's map[string]V as an association list. A write replaces the entry of its key in place.
use mathlib.Core.Path.{◌≡◌, refl}
use mathlib.Core.Option.{Option, none, some}
use mathlib.Core.List.{List, [], ◌∷◌}
use native.Mathlib.Omega.{arith}
use dftp.Base.Tests.{if◌then◌else◌, if-holds, Bool-cases}
use mathlib.Core.Path.{subst}
use mathlib.Core.Logic.{inl, inr}
use dftp.Base.Lists.{All}
use dftp.Base.Equality.{Text, ◌==◌, text_eq}

abbrev pub Assoc {ℓ} : Type ℓ → Type ℓ
Assoc V = List (Text × V)

module _ {ℓ} {V : Type ℓ} where
  unfoldable pub lookup : Text → Assoc V → Option V
  lookup key [] = none
  lookup key ((k, v) ∷ entries) = if k == key then some v else lookup key entries

  unfoldable pub insert : Text → V → Assoc V → Assoc V
  insert key new [] = (key, new) ∷ []
  insert key new ((k, v) ∷ entries) =
      if k == key then (k, new) ∷ entries else (k, v) ∷ insert key new entries

  pub lookup-insert :
      (key wanted : Text) (new : V) (entries : Assoc V)
      → lookup wanted (insert key new entries)
        ≡ (if key == wanted then some new else lookup wanted entries)
  unfolding insert lookup
  lookup-insert key wanted new [] = refl
  lookup-insert key wanted new ((k, v) ∷ entries) =
      ground (arith, lookup-insert key wanted new entries)

  -- No key is bound twice.
  abbrev pub NodupKeys : Assoc V → Type ℓ
  NodupKeys [] = Unit
  NodupKeys ((k, v) ∷ m) = (lookup k m ≡ none) × NodupKeys m

  pub insert-NodupKeys : (k : Text) (v : V) (m : Assoc V) → NodupKeys m → NodupKeys (insert k v m)
  unfolding insert lookup
  insert-NodupKeys k v [] u = (refl, tt)
  insert-NodupKeys k v ((j, w) ∷ m) u =
      ground (arith, insert-NodupKeys k v m u.1, lookup-insert k j v m)

-- Every value has the property.
abbrev pub Values {ℓ κ} : {V : Type ℓ} → (V → Type κ) → Assoc V → Type κ
Values P = All (λ e. P e.1)

module _ {ℓ κ} {V : Type ℓ} (P : V → Type κ) where
  pub insert-Values :
      (key : Text) (new : V) (m : Assoc V) → P new → Values P m → Values P (insert key new m)
  unfolding insert
  insert-Values key new [] n h = (n, tt)
  insert-Values key new ((k, v) ∷ m) n h =
      if-holds (Values P) (k == key) _ _ (n, h.1) (h.0, insert-Values key new m n h.1)

  pub lookup-Values : (key : Text) (m : Assoc V) {v : V} → lookup key m ≡ some v → Values P m → P v
  unfolding lookup
  lookup-Values key [] e h = cc
  lookup-Values key ((k, w) ∷ m) {v} e h = elim (Bool-cases (k == key)) [
    | inl q ↦ let same : w ≡ v = ground (arith, e) in subst P same h.0
    | inr q ↦ lookup-Values key m (rw q at e) h.1
  ]
