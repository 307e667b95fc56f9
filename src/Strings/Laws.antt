-- ===== src/Strings/Laws.antt =====
-- Laws of split, join and the trims.
use dftp.Base.{
  ℕ, ◌≡◌, ◌≢◌, refl, true, List, [], ◌∷◌, ◌++◌, ◌==◌, byte_eq, text_eq, Text, All, arith,
  Bool-cases, inl, inr, length, if◌then◌else◌, subst, ap, ◌∙◌, ==_refl, ==_ne,
}
use dftp.Strings.{has_prefix, trim_prefix, split, join, push_byte, drop}

-- A split has at least one part.
pub split-cons : (s : Text) (sep : ℕ) → (x : Text) × (r : List Text) × (split s sep ≡ x ∷ r)
unfolding split
split-cons [] sep = ([], [], refl)
split-cons (c ∷ s) sep = elim (Bool-cases (c == sep)) [
  | inl e ↦ ([], split s sep, rw e)
  | inr e ↦ let (x, r, p) = split-cons s sep in (c ∷ x, r, rw (e, p))
]

-- The byte does not occur in the text.
abbrev pub Lacks : ℕ → Text → Type 0
Lacks b = All (λ c. c ≢ b)

pub split-Lacks : (s : Text) (sep : ℕ) → Lacks sep s → split s sep ≡ s ∷ []
unfolding split
split-Lacks [] sep h = refl
split-Lacks (c ∷ s) sep h = ground (arith, split-Lacks s sep h.1)

pub split-append : (s t : Text) (sep : ℕ) → Lacks sep s → split (s ++ sep ∷ t) sep ≡ s ∷ split t sep
unfolding split
split-append [] t sep h = ground arith
split-append (c ∷ s) t sep h = ground (arith, split-append s t sep h.1)

-- Splitting what was joined gives the parts back, if there is a part and no part holds the byte.
pub split-join :
    (p : Text) (ps : List Text) (sep : ℕ)
    → All (Lacks sep) (p ∷ ps)
    → split (join (p ∷ ps) (sep ∷ [])) sep ≡ p ∷ ps
unfolding join
split-join p [] sep h = split-Lacks p sep h.0
split-join p (q ∷ ps) sep h =
    ground (arith, split-append p (join (q ∷ ps) (sep ∷ [])) sep h.0, split-join q ps sep h.1)

join-push_byte :
    (c : ℕ) (p : Text) (ps : List Text) (sep : Text)
    → join (push_byte c (p ∷ ps)) sep ≡ c ∷ join (p ∷ ps) sep
unfolding join
join-push_byte c p [] sep = refl
join-push_byte c p (q ∷ ps) sep = refl

join-step :
    (c : ℕ) (p : Text) (ps : List Text) (sep : ℕ)
    → join (if c == sep then [] ∷ p ∷ ps else push_byte c (p ∷ ps)) (sep ∷ [])
      ≡ c ∷ join (p ∷ ps) (sep ∷ [])
unfolding join
join-step c p ps sep = ground (arith, join-push_byte c p ps (sep ∷ []))

-- Joining the parts of a split gives the text back.
pub join-split : (s : Text) (sep : ℕ) → join (split s sep) (sep ∷ []) ≡ s
unfolding join split
join-split [] sep = refl
join-split (c ∷ s) sep =
    let (x, r, p) = split-cons s sep in
    let ih : join (x ∷ r) (sep ∷ []) ≡ s =
      subst (λ l. join l (sep ∷ []) ≡ s) p (join-split s sep) in
    rw p (join-step c x r sep ∙ ap (λ t. c ∷ t) ih)

pub has_prefix-append : (s t : Text) → has_prefix (s ++ t) s ≡ true
unfolding has_prefix
has_prefix-append [] t = refl
has_prefix-append (c ∷ s) t = ground (arith, has_prefix-append s t)

pub drop-append : (s t : Text) → drop (length s) (s ++ t) ≡ t
drop-append [] t = refl
drop-append (c ∷ s) t = drop-append s t

pub trim_prefix-append : (s t : Text) → trim_prefix (s ++ t) s ≡ t
unfolding trim_prefix
trim_prefix-append s t = ground (arith, has_prefix-append s t, drop-append s t)

push_byte-Lacks :
    (c : ℕ) (sep : ℕ) (parts : List Text)
    → c ≢ sep
    → All (Lacks sep) parts
    → All (Lacks sep) (push_byte c parts)
push_byte-Lacks c sep [] ne h = ((ne, tt), tt)
push_byte-Lacks c sep (part ∷ parts) ne h = ((ne, h.0), h.1)

-- No part of a split holds the separator.
pub split-All : (s : Text) (sep : ℕ) → All (Lacks sep) (split s sep)
unfolding split
split-All [] sep = (tt, tt)
split-All (c ∷ s) sep = elim (byte_eq.dec c sep) [
  | yes e ↦ rw (e, ==_refl) (tt, split-All s sep)
  | no ne ↦ rw (==_ne c sep ne) (push_byte-Lacks c sep (split s sep) ne (split-All s sep))
]
