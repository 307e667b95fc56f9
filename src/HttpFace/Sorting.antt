-- ===== src/HttpFace/Sorting.antt =====
-- The order of a listing's entries.
use mathlib.Core.List.{Perm}
use mathlib.Core.List.Perm
use dftp.Base.{
  true, false, List, [], ◌∷◌, Text, byte_eq, ◌≡◌, refl, arith, All, Bool-cases, inl, inr,
}
use dftp.Base.Perms.{AllPairs}
use dftp.HttpFace.{Entry, text_lt, insert_entry, sort_entries}

-- The entry may stand before the other one.
abbrev pub MayPrecede : Entry → Entry → Type 0
MayPrecede e f = text_lt f.sortname e.sortname ≡ false

pub text_lt_trans : (s t u : Text) → text_lt t s ≡ false → text_lt u t ≡ false → text_lt u s ≡ false
unfolding text_lt
text_lt_trans [] t u h k = refl
text_lt_trans (c ∷ s) [] u h k = cc
text_lt_trans (c ∷ s) (d ∷ t) [] h k = cc
text_lt_trans (c ∷ s) (d ∷ t) (x ∷ u) h k = ground (arith, text_lt_trans s t u)

text_lt-asym : (s t : Text) → text_lt s t ≡ true → text_lt t s ≡ false
unfolding text_lt
text_lt-asym [] t h = refl
text_lt-asym (c ∷ s) [] h = cc
text_lt-asym (c ∷ s) (d ∷ t) h = ground (arith, text_lt-asym s t)

before-All :
    (e f : Entry) (entries : List Entry)
    → MayPrecede e f
    → All (MayPrecede f) entries
    → All (MayPrecede e) entries
before-All e f [] h hs = tt
before-All e f (g ∷ entries) h hs =
    (text_lt_trans e.sortname f.sortname g.sortname h hs.0, before-All e f entries h hs.1)

insert-before :
    (g e : Entry) (entries : List Entry)
    → MayPrecede g e
    → All (MayPrecede g) entries
    → All (MayPrecede g) (insert_entry e entries)
unfolding insert_entry
insert-before g e [] h hs = (h, tt)
insert-before g e (f ∷ entries) h hs = elim (Bool-cases (text_lt f.sortname e.sortname)) [
  | inl t ↦ rw t (hs.0, insert-before g e entries h hs.1)
  | inr t ↦ rw t (h, hs)
]

insert-sorted :
    (e : Entry) (entries : List Entry)
    → AllPairs MayPrecede entries
    → AllPairs MayPrecede (insert_entry e entries)
unfolding insert_entry
insert-sorted e [] h = (tt, tt)
insert-sorted e (f ∷ entries) h = elim (Bool-cases (text_lt f.sortname e.sortname)) [
  | inl t ↦ rw t (
    insert-before f e entries (text_lt-asym f.sortname e.sortname t) h.0,
    insert-sorted e entries h.1,
  )
  | inr t ↦ rw t ((t, before-All e f entries t h.0), h)
]

insert-perm : (e : Entry) (entries : List Entry) → Perm (insert_entry e entries) (e ∷ entries)
unfolding insert_entry
insert-perm e [] = Perm.refl _
insert-perm e (f ∷ entries) = elim (Bool-cases (text_lt f.sortname e.sortname)) [
  | inl t ↦ rw t (Perm.trans (Perm.cons f (insert-perm e entries)) (Perm.swap e f entries))
  | inr t ↦ rw t (Perm.refl _)
]

-- The sorted entries are the given ones in another order, none standing before one with a smaller
-- `sortname`.
pub sort_entries_lem :
    (entries : List Entry)
    → Perm (sort_entries entries) entries × AllPairs MayPrecede (sort_entries entries)
unfolding sort_entries
sort_entries_lem [] = (Perm.refl [], tt)
sort_entries_lem (e ∷ entries) =
    let (p, h) = sort_entries_lem entries in
    (
      Perm.trans (insert-perm e (sort_entries entries)) (Perm.cons e p),
      insert-sorted e (sort_entries entries) h,
    )
