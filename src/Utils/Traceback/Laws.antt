-- ===== src/Utils/Traceback/Laws.antt =====
-- Which lines of a stack trace `GetTraceback` gives.
use dftp.Base.{
  ℕ, zero, suc, ◌+◌, ◌-◌, leb, true, false, List, [], ◌∷◌, ◌++◌, some, Text, codes, length,
  length-append, if◌then◌else◌, returns, panics, ◌≡◌, refl, byte_eq, text_eq, All, arith, ap, ◌∙◌,
}
use dftp.Strings.{take, drop, split, join}
use dftp.Strings.Laws.{Lacks, split-join}
use dftp.Utils.Traceback.{contains, slice, find_line, get_traceback}

find_line-first :
    (i : ℕ) (before after : List Text) (line : Text)
    → All (λ l. contains l (codes "ServeHTTP") ≡ false) before
    → contains line (codes "ServeHTTP") ≡ true
    → find_line i (before ++ line ∷ after) ≡ some (i + length before)
unfolding find_line
find_line-first i [] after line h e = rw e (ap some (omega arith))
find_line-first i (b ∷ before) after line h e =
    rw h.0 (find_line-first (i + 1) before after line h.1 e ∙ ap some (omega arith))

take-length : (xs ys : List Text) → take (length xs) (xs ++ ys) ≡ xs
take-length [] [] = refl
take-length [] (y ∷ ys) = refl
take-length (x ∷ xs) ys = ap (λ r. x ∷ r) (take-length xs ys)

take-slice :
    (k : ℕ) (before rest : List Text)
    → take (length before - k) (drop k (before ++ rest)) ≡ drop k before
take-slice zero before rest =
    let e : length before - 0 ≡ length before = omega arith in
    ap (λ n. take n (before ++ rest)) e ∙ take-length before rest
take-slice (suc k) [] rest =
    let e : 0 - suc k ≡ 0 = omega arith in ap (λ n. take n (drop (suc k) rest)) e
take-slice (suc k) (b ∷ before) rest =
    let e : suc (length before) - suc k ≡ length before - k = omega arith in
    ap (λ n. take n (drop k (before ++ rest))) e ∙ take-slice k before rest

slice-before :
    (k : ℕ) (before rest : List Text)
    → slice (before ++ rest) k (length before)
      ≡ (if leb k (length before) then returns (drop k before) else panics)
slice-before k before rest =
    rw (take-slice k before rest) (ground (arith, length-append before rest))

split-lines :
    (before : List Text) (line : Text) (after : List Text)
    → All (Lacks b'\n') (before ++ line ∷ after)
    → split (join (before ++ line ∷ after) (codes "\n")) b'\n' ≡ before ++ line ∷ after
split-lines [] line after h = split-join line after b'\n' h
split-lines (b ∷ before) line after h = split-join b (before ++ line ∷ after) b'\n' h

-- Of a trace with a line that names ServeHTTP, the lines before the first such line are given without
-- the first four, and if there are fewer than four it panics.
pub get_traceback_lem :
    (before after : List Text) (line : Text)
    → All (Lacks b'\n') (before ++ line ∷ after)
    → All (λ l. contains l (codes "ServeHTTP") ≡ false) before
    → contains line (codes "ServeHTTP") ≡ true
    → get_traceback (join (before ++ line ∷ after) (codes "\n"))
      ≡ (if leb 4 (length before) then returns (join (drop 4 before) (codes "\n")) else panics)
unfolding get_traceback
get_traceback_lem before after line plain h e =
    let parts = split-lines before line after plain in
    let first : find_line 0 (before ++ line ∷ after) ≡ some (length before) =
      find_line-first 0 before after line h e ∙ ap some (omega arith) in
    rw (get_traceback, parts, first, parts, slice-before 4 before (line ∷ after)) (ground arith)
