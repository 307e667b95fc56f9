-- ===== src/Base/Folds.antt =====
-- A loop whose steps commute and can be repeated depends only on which elements it meets.
use mathlib.Core.Path.{◌≡◌, refl, ap, ◌∙◌, sym, subst}
use mathlib.Core.List.{List, [], ◌∷◌, foldl}
use mathlib.Core.Logic.{inl, inr}
use dftp.Base.Lists.{All, Among}

module _ {S : Type 0} {A : Type 0} (R : A → A → Type 0) (step : S → A → S)
    (commute : (s : S) (a b : A) → R a b → step (step s a) b ≡ step (step s b) a)
    (repeat : (s : S) (a : A) → R a a → step (step s a) a ≡ step s a) where
  -- A step that the loop makes later is not needed first.
  fold-absorb :
      (s : S) (a : A) (xs : List A)
      → Among xs a
      → All (R a) xs
      → foldl step (step s a) xs ≡ foldl step s xs
  fold-absorb s a [] m h = absurd m
  fold-absorb s a (x ∷ xs) (inl e) h =
      ap (λ z. foldl step z xs)
        (ap (step (step s a)) (sym e) ∙ repeat s a (subst (R a) (sym e) h.0) ∙ ap (step s) e)
  fold-absorb s a (x ∷ xs) (inr m) h =
      ap (λ z. foldl step z xs) (commute s a x h.0) ∙ fold-absorb (step s x) a xs m h.1

  fold-absorb_all :
      (s : S) (ys xs : List A)
      → All (Among xs) ys
      → All (λ y. All (R y) xs) ys
      → foldl step (foldl step s ys) xs ≡ foldl step s xs
  fold-absorb_all s [] xs m h = refl
  fold-absorb_all s (y ∷ ys) xs m h =
      fold-absorb_all (step s y) ys xs m.1 h.1 ∙ fold-absorb s y xs m.0 h.0

  fold-commute :
      (s : S) (a : A) (xs : List A)
      → All (R a) xs
      → foldl step (step s a) xs ≡ step (foldl step s xs) a
  fold-commute s a [] h = refl
  fold-commute s a (x ∷ xs) h =
      ap (λ z. foldl step z xs) (commute s a x h.0) ∙ fold-commute (step s x) a xs h.1

  fold-commute_all :
      (s : S) (ys xs : List A)
      → All (λ y. All (R y) xs) ys
      → foldl step (foldl step s ys) xs ≡ foldl step (foldl step s xs) ys
  fold-commute_all s [] xs h = refl
  fold-commute_all s (y ∷ ys) xs h =
      fold-commute_all (step s y) ys xs h.1 ∙ ap (λ z. foldl step z ys) (fold-commute s y xs h.0)

  -- Two lists of the same elements, in any order and any number.
  pub fold-among :
      (s : S) (xs ys : List A)
      → All (Among ys) xs
      → All (Among xs) ys
      → All (λ y. All (R y) xs) ys
      → All (λ x. All (R x) ys) xs
      → foldl step s xs ≡ foldl step s ys
  fold-among s xs ys m n h k =
      sym (fold-absorb_all s ys xs n h) ∙ fold-commute_all s ys xs h ∙ fold-absorb_all s xs ys m k
