-- ===== src/Update/Placed.antt =====
-- What the loop over one group's announcements leaves: the entry's stat and the nested announcements.
use dftp.Base.{
  ℕ, suc, ◌≤◌, List, [], ◌∷◌, Option, none, some, Text, ◌==◌, text_eq, path_eq, ◌≡◌, refl, arith,
  inl, inr, All, length, ap, ◌∙◌, sym,
}
use dftp.Fat.{FileStat}
use dftp.Update.{FileAnnouncement, parts, name_shift, apply_stat, place_files}
use dftp.Update.Groups.{IsReady, StartsWith}
use dftp.Update.Target.{target, effect, effect-miss, take_in, StopsAt, start_cases}

abbrev pub nested_of : FileStat → List FileAnnouncement → List FileAnnouncement
nested_of s files = (place_files s files).1

-- At the entry itself, if nothing goes below it.
pub place_leaves :
    (x : Text) (s : FileStat) (files : List FileAnnouncement)
    → All (StartsWith x) files
    → All (StopsAt (x ∷ [])) files
    → (nested_of s files ≡ []) × (take_in (x ∷ []) (some s) files ≡ some (place_files s files).0)
unfolding place_files take_in
place_leaves x s [] started stops = (refl, refl)
place_leaves x s (fa ∷ files) (start, started) (stop, stops) = elim (start_cases x fa start) [
  | inl (d, t) ↦ ground (arith, place_leaves x (apply_stat s fa) files started stops)
  | inr (y, r, d, t, _, _, _) ↦ absurd (stop y r t)
]

eq-cons : (x : Text) (a b : List Text) → ((x ∷ a) == (x ∷ b)) ≡ (a == b)
eq-cons x a b = ground arith

effect-below :
    (x y : Text) (q : List Text) (o : Option FileStat) (fa : FileAnnouncement)
    → target fa ≡ x ∷ target (name_shift fa)
    → effect (x ∷ y ∷ q) o fa ≡ effect (y ∷ q) o (name_shift fa)
unfolding apply_stat
effect-below x y q none fa e = rw (e, eq-cons)
effect-below x y q (some s) fa e = rw (e, eq-cons)

-- Below the entry.
pub place_below :
    (x y : Text) (q : List Text) (o : Option FileStat) (s : FileStat)
    (files : List FileAnnouncement)
    → All (StartsWith x) files
    → take_in (x ∷ y ∷ q) o files ≡ take_in (y ∷ q) o (nested_of s files)
unfolding place_files take_in
place_below x y q o s [] started = refl
place_below x y q o s (fa ∷ files) (start, started) = elim (start_cases x fa start) [
  | inl (d, t) ↦
      rw (d, effect-miss (x ∷ y ∷ q) o fa (λ e. cc))
        (place_below x y q o (apply_stat s fa) files started)
  | inr (z, r, d, t, t', _, _) ↦
      rw (d, effect-below x y q o fa (t ∙ ap (λ (l : List Text). x ∷ l) (sym t')))
        (place_below x y q (effect (y ∷ q) o (name_shift fa)) s files started)
]

-- What is handed on is ready, shorter, and stops where it did.
pub nested-IsReady :
    (x : Text) (s : FileStat) (files : List FileAnnouncement)
    → All (StartsWith x) files
    → All IsReady (nested_of s files)
unfolding place_files
nested-IsReady x s [] started = tt
nested-IsReady x s (fa ∷ files) (start, started) = elim (start_cases x fa start) [
  | inl (d, t) ↦ rw d (nested-IsReady x (apply_stat s fa) files started)
  | inr (y, r, d, t, t', e, _) ↦ rw d ((y, r, e), nested-IsReady x s files started)
]

abbrev pub FitsIn : ℕ → FileAnnouncement → Type 0
FitsIn k fa = length (parts fa) ≤ k

pub nested-FitsIn :
    (x : Text) (k : ℕ) (s : FileStat) (files : List FileAnnouncement)
    → All (StartsWith x) files
    → All (FitsIn (suc k)) files
    → All (FitsIn k) (nested_of s files)
unfolding place_files
nested-FitsIn x k s [] started fit = tt
nested-FitsIn x k s (fa ∷ files) (start, started) (f, fit) = elim (start_cases x fa start) [
  | inl (d, t) ↦ rw d (nested-FitsIn x k (apply_stat s fa) files started fit)
  | inr (y, r, d, t, t', e, e') ↦ rw d (
    rw e (omega (arith, ap (λ (l : List Text). length l) e')),
    nested-FitsIn x k s files started fit,
  )
]

pub nested-StopsAt :
    (x y : Text) (q : List Text) (s : FileStat) (files : List FileAnnouncement)
    → All (StartsWith x) files
    → All (StopsAt (x ∷ y ∷ q)) files
    → All (StopsAt (y ∷ q)) (nested_of s files)
unfolding place_files
nested-StopsAt x y q s [] started stops = tt
nested-StopsAt x y q s (fa ∷ files) (start, started) (stop, stops) = elim (start_cases x fa start) [
  | inl (d, t) ↦ rw d (nested-StopsAt x y q (apply_stat s fa) files started stops)
  | inr (z, r, d, t, t', e, e') ↦
      rw d ((λ n m p. stop n m (cc)), nested-StopsAt x y q s files started stops)
]
