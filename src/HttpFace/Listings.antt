-- ===== src/HttpFace/Listings.antt =====
-- The order in which a listing shows a directory, for every run of `SortSlice`.
use mathlib.Core.Bool.{Bool-set}
use mathlib.Core.Logic.{∥∥₁_elim}
use mathlib.Core.List.{Perm}
use mathlib.Core.List.Perm
use mathlib.Core.List.Permᴰ
use dftp.Base.{Bool, false, List, [], ◌∷◌, map, Text, byte_eq, ◌≡◌, refl, arith, All, ap, ◌∙◌}
use dftp.Base.Perms.{AllPairs, All-perm}
use dftp.Utils.Sort.{SortSlice}
use dftp.Utils.Sort.Laws.{Swaps-perm, InOrder-AllPairs}
use dftp.HttpFace.{Entry, text_lt, sort_entries}
use dftp.HttpFace.Sorting.{MayPrecede, text_lt_trans, sort_entries_lem}

-- The comparison that `Fs` sorts by.
abbrev pub by_sortname : Entry → Entry → Bool
by_sortname l r = text_lt l.sortname r.sortname

abbrev pub sortnames : List Entry → List Text
sortnames = map (λ e. e.sortname)

abbrev IsAscending : List Text → Type 0
IsAscending = AllPairs (λ s t. text_lt t s ≡ false)

text_lt_antisymm : (s t : Text) → text_lt s t ≡ false → text_lt t s ≡ false → s ≡ t
unfolding text_lt
text_lt_antisymm [] [] h k = refl
text_lt_antisymm [] (d ∷ t) h k = cc
text_lt_antisymm (c ∷ s) [] h k = cc
text_lt_antisymm (c ∷ s) (d ∷ t) h k = ground (arith, text_lt_antisymm s t)

text_lt_irrefl : (s : Text) → text_lt s s ≡ false
unfolding text_lt
text_lt_irrefl [] = refl
text_lt_irrefl (c ∷ s) = ground (arith, text_lt_irrefl s)

sortnames-All :
    (e : Entry) (entries : List Entry)
    → All (MayPrecede e) entries
    → All (λ t. text_lt t e.sortname ≡ false) (sortnames entries)
sortnames-All e [] h = tt
sortnames-All e (f ∷ entries) h = (h.0, sortnames-All e entries h.1)

sortnames-IsAscending :
    (entries : List Entry) → AllPairs MayPrecede entries → IsAscending (sortnames entries)
sortnames-IsAscending [] h = tt
sortnames-IsAscending (e ∷ entries) h =
    (sortnames-All e entries h.0, sortnames-IsAscending entries h.1)

heads_le :
    (a b : Text) (l r : List Text)
    → IsAscending (a ∷ l)
    → Perm (b ∷ r) (a ∷ l)
    → text_lt b a ≡ false
heads_le a b l r h p =
    ∥∥₁_elim p (Bool-set _ _)
      λ d. (All-perm (λ t. text_lt t a ≡ false) (Permᴰ.symm d) (text_lt_irrefl a, h.0)).0

IsAscending-eq_of_perm : (l r : List Text) → IsAscending l → IsAscending r → Perm l r → l ≡ r
IsAscending-eq_of_perm [] r hl hr p = Perm.nil-eq p
IsAscending-eq_of_perm (a ∷ l) [] hl hr p = Perm.eq-nil p
IsAscending-eq_of_perm (a ∷ l) (b ∷ r) hl hr p =
    let same : a ≡ b =
      text_lt_antisymm a b (heads_le b a r l hr p) (heads_le a b l r hl (Perm.symm p)) in
    let tails = Perm.cons_inv (Perm.trans p (Perm.symm (Perm.cons' same Perm.rfl))) in
    ap (λ x. x ∷ l) same ∙ ap (λ xs. b ∷ xs) (IsAscending-eq_of_perm l r hl.1 hr.1 tails)

-- Whatever swaps a sort of the entries makes, if it ends in order the listing shows the entries of
-- the directory by their `sortname` as `sort_entries` does.
pub SortSlice-sort_entries :
    (entries sorted : List Entry)
    → SortSlice by_sortname entries sorted
    → sortnames sorted ≡ sortnames (sort_entries entries)
SortSlice-sort_entries entries sorted (swaps, order) =
    let (p, h) = sort_entries_lem entries in
    IsAscending-eq_of_perm (sortnames sorted) (sortnames (sort_entries entries))
      (sortnames-IsAscending sorted (
        InOrder-AllPairs by_sortname (λ a b c. text_lt_trans a.sortname b.sortname c.sortname)
          sorted order))
      (sortnames-IsAscending (sort_entries entries) h)
      (Perm.map (λ e. e.sortname)
        (Perm.trans (Perm.symm (Swaps-perm entries sorted swaps)) (Perm.symm p)))
