-- ===== src/Utils/Traceback.antt =====
-- src/dftp/utils/utils.go: the part of a stack trace that is logged of a panic. What runtime.Stack
-- writes into its buffer is an argument.
pub mod Laws
use dftp.Base.{
  ℕ, zero, suc, ◌+◌, ◌-◌, leb, Bool, true, false, ◌&&◌, ◌||◌, List, [], ◌∷◌, ◌++◌, Option, none,
  some, Text, codes, length, if◌then◌else◌, Outcome, returns, panics, ◌≡◌, refl, byte_eq, text_eq,
  ◌==◌,
}
use dftp.Strings.{has_prefix, take, drop, split, join}

-- strings.Contains(s, sub)
unfoldable pub contains : Text → Text → Bool
unfolding has_prefix
contains [] sub = has_prefix [] sub
contains (c ∷ s) sub = has_prefix (c ∷ s) sub || contains s sub

-- xs[lo:hi]
abbrev pub slice : List Text → ℕ → ℕ → Outcome (List Text)
slice xs lo hi =
    if leb lo hi && leb hi (length xs) then returns (take (hi - lo) (drop lo xs)) else panics

-- The loop of `GetTraceback`: the index of the first line that calls a handler.
unfoldable pub find_line : ℕ → List Text → Option ℕ
unfolding contains
find_line i [] = none
find_line i (line ∷ lines) =
    let later = find_line (i + 1) lines in
    if contains line (codes "ServeHTTP") then some i else later

abbrev pub joined : Outcome (List Text) → Outcome Text
joined (returns lines) = returns (join lines (b'\n' ∷ []))
joined _ = panics

-- `GetTraceback`
unfoldable pub get_traceback : Text → Outcome Text
unfolding find_line split join
get_traceback stb = elim (find_line 0 (split stb b'\n')) [
  | none ↦ returns stb
  | some i ↦ joined (slice (split stb b'\n') 4 i)
]

-- A trace whose first lines name a handler is cut at an index below four, a panic.
traceback_test :
    (get_traceback (codes "g\na\nb\nc\nmain.f\nnet.ServeHTTP\nx") ≡ returns (codes "main.f"))
    × (get_traceback (codes "g\na.ServeHTTP\nb") ≡ panics)
    × (get_traceback (codes "g\na") ≡ returns (codes "g\na"))
unfolding get_traceback byte_eq
traceback_test = (refl, refl, refl)
