-- ===== src/Base/Perms.antt =====
-- Facts about lists that a reordering keeps.
use mathlib.Core.Path.{◌≡◌, subst, refl, ap, ◌∙◌}
use mathlib.Core.List.{List, [], ◌∷◌, Permᴰ, foldl}
use dftp.Base.Lists.{All}

module _ {ℓ κ} {A : Type ℓ} (P : A → Type κ) where
  pub All-perm : {xs ys : List A} → Permᴰ xs ys → All P xs → All P ys
  All-perm Permᴰ.nil h = h
  All-perm (Permᴰ.cons e p) h = (subst P e h.0, All-perm p h.1)
  All-perm (Permᴰ.swap e f) h = (subst P f h.1.0, (subst P e h.0, h.1.1))
  All-perm (Permᴰ.trans p q) h = All-perm q (All-perm p h)

-- Any two elements, at different places, are related.
module _ {ℓ κ} {A : Type ℓ} (R : A → A → Type κ) where
  abbrev pub AllPairs : List A → Type κ
  AllPairs [] = Unit
  AllPairs (x ∷ xs) = All (R x) xs × AllPairs xs

  pub AllPairs-perm :
      ((a b : A) → R a b → R b a) → {xs ys : List A} → Permᴰ xs ys → AllPairs xs → AllPairs ys
  AllPairs-perm s Permᴰ.nil h = h
  AllPairs-perm s (Permᴰ.cons e p) h = (rw (← e) (All-perm (R _) p h.0), AllPairs-perm s p h.1)
  AllPairs-perm s (Permᴰ.swap {a = a} {b = b} {b' = b'} {l = l} e f) h =
      subst (λ x. AllPairs (x ∷ b' ∷ l)) f
        (subst (λ y. AllPairs (b ∷ y ∷ l)) e ((s a b h.0.0, h.1.0), (h.0.1, h.1.1)))
  AllPairs-perm s (Permᴰ.trans p q) h = AllPairs-perm s q (AllPairs-perm s p h)

  -- A loop whose steps commute on related elements ends in one state for all orders.
  pub fold-perm {μ} :
      {S : Type μ} (step : S → A → S)
      → ((s : S) (a b : A) → R a b → step (step s a) b ≡ step (step s b) a)
      → ((a b : A) → R a b → R b a)
      → {xs ys : List A} → Permᴰ xs ys
      → AllPairs xs
      → (s : S) → foldl step s xs ≡ foldl step s ys
  fold-perm step c sy Permᴰ.nil h s = refl
  fold-perm step c sy (Permᴰ.cons e p) h s = rw e (fold-perm step c sy p h.1 (step s _))
  fold-perm step c sy (Permᴰ.swap {a = a} {b = b} {l = l} e f) h s =
      rw (← e, ← f) (ap (λ t. foldl step t l) (c s a b h.0.0))
  fold-perm step c sy (Permᴰ.trans p q) h s =
      fold-perm step c sy p h s ∙ fold-perm step c sy q (AllPairs-perm sy p h) s
