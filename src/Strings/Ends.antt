-- ===== src/Strings/Ends.antt =====
-- Trimming a slash at either end, and paths whose names have none.
use dftp.Base.{
  ℕ, ◌-◌, true, List, [], ◌∷◌, ◌++◌, append_assoc, Text, length, length-append, byte_eq, text_eq,
  leb, All, All-map, ◌≡◌, ◌≢◌, refl, arith, ap, ◌∙◌, sym, ==_refl, ==_ne,
}
use dftp.Strings.{take, has_suffix, trim_prefix, trim_suffix, split, join, slash}
use dftp.Strings.Laws.{Lacks, drop-append, split-join}

take-append : (s t : Text) → take (length s) (s ++ t) ≡ s
take-append [] [] = refl
take-append [] (d ∷ t) = refl
take-append (c ∷ s) t = ap (λ r. c ∷ r) (take-append s t)

length-snoc : (u : Text) (d : ℕ) → length (u ++ d ∷ []) - 1 ≡ length u
length-snoc u d = omega (arith, length-append u (d ∷ []))

fits : (u : Text) (d : ℕ) → leb 1 (length (u ++ d ∷ [])) ≡ true
fits u d = ground (arith, length-append u (d ∷ []))

pub trim_suffix-slash : (u : Text) → trim_suffix (u ++ slash) slash ≡ u
unfolding trim_suffix
trim_suffix-slash u =
    rw (fits u b'/', length-snoc u b'/', drop-append u slash, ==_refl) (take-append u slash)

pub has_suffix-slash : (u : Text) → has_suffix (u ++ slash) slash ≡ true
unfolding has_suffix
has_suffix-slash u = rw (fits u b'/', length-snoc u b'/', drop-append u slash, ==_refl) refl

pub trim_suffix-ne : (u : Text) (d : ℕ) → d ≢ b'/' → trim_suffix (u ++ d ∷ []) slash ≡ u ++ d ∷ []
unfolding trim_suffix
trim_suffix-ne u d h =
    rw (fits u d, length-snoc u d, drop-append u (d ∷ []), ==_ne (d ∷ []) slash (λ e. h (cc)))

pub trim_prefix-slash : (t : Text) → trim_prefix (b'/' ∷ t) slash ≡ t
unfolding trim_prefix
trim_prefix-slash t = ground arith

pub trim_prefix-ne : (c : ℕ) (t : Text) → c ≢ b'/' → trim_prefix (c ∷ t) slash ≡ c ∷ t
unfolding trim_prefix
trim_prefix-ne c t h = ground arith

-- A name of a file: it is not empty and has no slash.
abbrev pub IsName : Text → Type 0
IsName n = (n ≢ []) × Lacks b'/' n

-- The text ends in a byte that is no slash.
abbrev pub EndsPlain : Text → Type 0
EndsPlain s = (u : Text) × (d : ℕ) × (s ≡ u ++ d ∷ []) × (d ≢ b'/')

-- The text begins with a byte that is no slash.
abbrev pub BeginsPlain : Text → Type 0
BeginsPlain s = (c : ℕ) × (t : Text) × (s ≡ c ∷ t) × (c ≢ b'/')

name-EndsPlain : (n : Text) → IsName n → EndsPlain n
name-EndsPlain [] h = absurd (h.0 refl)
name-EndsPlain (c ∷ []) h = ([], c, refl, h.1.0)
name-EndsPlain (c ∷ d ∷ n) h =
    let (u, e, p, q) = name-EndsPlain (d ∷ n) (λ e. cc, h.1.1) in (c ∷ u, e, ap (λ t. c ∷ t) p, q)

pub append-EndsPlain : (s t : Text) → EndsPlain t → EndsPlain (s ++ t)
append-EndsPlain s t (u, d, p, q) =
    (s ++ u, d, ap (λ r. s ++ r) p ∙ sym (append_assoc s u (d ∷ [])), q)

pub join-EndsPlain :
    (x : Text) (q : List Text) → All IsName (x ∷ q) → EndsPlain (join (x ∷ q) slash)
unfolding join
join-EndsPlain x [] h = name-EndsPlain x h.0
join-EndsPlain x (y ∷ q) h =
    append-EndsPlain x (slash ++ join (y ∷ q) slash)
      (append-EndsPlain slash (join (y ∷ q) slash) (join-EndsPlain y q h.1))

pub join-BeginsPlain :
    (x : Text) (q : List Text) → All IsName (x ∷ q) → BeginsPlain (join (x ∷ q) slash)
unfolding join
join-BeginsPlain [] q h = absurd (h.0.0 refl)
join-BeginsPlain (c ∷ x) [] h = (c, x, refl, h.0.1.0)
join-BeginsPlain (c ∷ x) (y ∷ q) h = (c, x ++ (slash ++ join (y ∷ q) slash), refl, h.0.1.0)

pub trim_prefix-BeginsPlain : (s : Text) → BeginsPlain s → trim_prefix s slash ≡ s
trim_prefix-BeginsPlain s (c, t, p, q) = rw p (trim_prefix-ne c t q)

pub trim_suffix-EndsPlain : (s : Text) → EndsPlain s → trim_suffix s slash ≡ s
trim_suffix-EndsPlain s (u, d, p, q) = rw p (trim_suffix-ne u d q)

pub split-names :
    (x : Text) (q : List Text) → All IsName (x ∷ q) → split (join (x ∷ q) slash) b'/' ≡ x ∷ q
split-names x q h = split-join x q b'/' (All-map (λ a (i : IsName a). i.1) (x ∷ q) h)
