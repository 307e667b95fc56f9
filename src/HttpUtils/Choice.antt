-- ===== src/HttpUtils/Choice.antt =====
-- Which route a mux takes.
use dftp.Base.{
  ℕ, ◌<◌, Bool, true, false, List, [], ◌∷◌, ◌++◌, Text, length, All, ◌≡◌, ◌⊎◌, ◌≢◌, inl, inr, sym,
  byte_eq, refl, ap, ◌∙◌, arith, subst,
}
use dftp.Base.Assoc.{Assoc, lookup}
use dftp.Strings.{has_prefix, slash}
use dftp.HttpUtils.{IsAmong, IsSubtree, IsClean, ServeMux, patterns_of, dispatch}

pub conflict : {A : Type 0} (b : Bool) → b ≡ true → b ≡ false → A
conflict b h k = absurd (let f : true ≡ false = sym h ∙ k in cc)

-- Two of the patterns that do not fit one path: they differ in the first byte after the slash.
pub disjoint :
    (a b : ℕ) (p q path : Text)
    → a ≢ b
    → has_prefix path (b'/' ∷ a ∷ p) ≡ true
    → has_prefix path (b'/' ∷ b ∷ q) ≡ false
unfolding has_prefix byte_eq
disjoint a b p q [] ne h = refl
disjoint a b p q (s ∷ []) ne h = ground arith
disjoint a b p q (s ∷ t ∷ path) ne h = ground arith

-- The pattern is the path's, or it is shorter, if it fits the path.
abbrev pub Weaker : Text → Text → Text → Type 0
Weaker path p q = has_prefix path q ≡ true → (q ≡ p) ⊎ (length q < length p)

from_All :
    (P : Text → Type 0) (patterns : List Text) (p : Text)
    → All P patterns
    → IsAmong patterns p
    → P p
from_All P (q ∷ patterns) p h (inl e) = subst P (sym e) h.0
from_All P (q ∷ patterns) p h (inr m) = from_All P patterns p h.1 m
from_All P [] p h m = absurd m

module _ (mux : ServeMux) {H : Type 0} (routes : Assoc H) (path p : Text)
    (subtrees : All IsSubtree (patterns_of routes)) (is_clean : IsClean path)
    (no_root : All (λ q. path ++ slash ≢ q) (patterns_of routes)) where
  -- A pattern that fits the path, and better than every other one, is chosen.
  pub chosen_best :
      IsAmong (patterns_of routes) p
      → has_prefix path p ≡ true
      → All (Weaker path p) (patterns_of routes)
      → dispatch mux routes path ≡ lookup p routes
  unfolding dispatch
  chosen_best among fits best =
      let (q, e) = mux.finds (patterns_of routes) path p subtrees is_clean no_root among fits in
      let (q_among, q_fits) = mux.serves (patterns_of routes) path q subtrees e in
      let longer = mux.longest (patterns_of routes) path q p subtrees e among fits in
      rw e (elim (from_All (Weaker path p) (patterns_of routes) q best q_among q_fits) [
        | inl same ↦ ap (λ z. lookup z routes) same
        | inr shorter ↦ absurd (omega (arith, longer, shorter))
      ])
