-- ===== src/Strings/Number.antt =====
-- strconv.Atoi, on texts as lists of bytes.
use dftp.Base.{
  ℕ, zero, suc, ◌+◌, ◌-◌, ◌*◌, ◌^◌, ℤ, pos, negsuc, ltb, leb, ◌&&◌, [], ◌∷◌, Option, none, some,
  Text, codes, ◌==◌, byte_eq, if◌then◌else◌, ◌≡◌, refl,
}

abbrev digit_value : ℕ → Option ℕ
digit_value c = if leb b'0' c && leb c b'9' then some (c - b'0') else none

digits_loop : ℕ → Text → Option ℕ
digits_loop n [] = some n
digits_loop n (c ∷ s) =
    let rest = digits_loop (n * 10 + (c - b'0')) s in
    elim (digit_value c) [ none ↦ none | some d ↦ rest ]

unsigned : Text → Option ℕ
unfolding digits_loop
unsigned [] = none
unsigned (c ∷ s) = digits_loop 0 (c ∷ s)

abbrev as_negative : ℕ → Option ℤ
as_negative zero = some (pos 0)
as_negative (suc n) = if ltb n (2 ^ 63) then some (negsuc n) else none

-- strconv.Atoi(s), where int has 64 bits
unfoldable pub atoi : Text → Option ℤ
unfolding unsigned byte_eq
atoi [] = none
atoi (c ∷ s) =
    if c == b'-'
    then (elim (unsigned s) [ none ↦ none | some n ↦ as_negative n ])
    else elim (if c == b'+' then unsigned s else unsigned (c ∷ s)) [
      | none ↦ none
      | some n ↦ if ltb n (2 ^ 63) then some (pos n) else none
    ]

atoi_tests :
    (atoi (codes "2121") ≡ some (pos 2121))
    × (atoi (codes "-1") ≡ some (negsuc 0))
    × (atoi (codes "+5") ≡ some (pos 5))
    × (atoi [] ≡ none)
    × (atoi (codes "5x") ≡ none)
    × (atoi (codes "9223372036854775808") ≡ none)
unfolding atoi
atoi_tests = (refl, refl, refl, refl, refl, refl)
