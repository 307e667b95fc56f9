-- ===== src/Update/Through.antt =====
-- The nodes that announcements go to or pass through.
use dftp.Base.{
  Bool, true, false, ◌&&◌, ◌||◌, List, [], ◌∷◌, ◌++◌, Option, none, some, Text, ◌==◌, text_eq,
  path_eq, ◌≡◌, ◌≢◌, refl, arith, inl, inr, Bool-cases, Among, All, ap, ◌∙◌, sym, subst, ==_refl,
  ==_ne,
}
use dftp.Fat.{FileStat, TreeNode}
use dftp.Fat.Paths.{node_at}
use dftp.Update.{FileAnnouncement, parts, apply_stat, place_files}
use dftp.Update.Groups.{StartsWith}
use dftp.Update.Target.{target, first_only, start_cases}
use dftp.Update.Placed.{nested_of}

abbrev pub there : Option TreeNode → Bool
there none = false
there (some n) = true

-- The first path is a beginning of the second one, or all of it.
unfoldable pub begins : List Text → List Text → Bool
begins [] path = true
begins (x ∷ p) [] = false
begins (x ∷ p) (y ∷ path) = x == y && begins p path

-- Some announcement goes to the path, or passes through it.
unfoldable pub through : List Text → List FileAnnouncement → Bool
through p [] = false
through p (fa ∷ files) = begins p (target fa) || through p files

-- The tree `n'` has the nodes of the tree `n`, and those that the announcements make.
abbrev pub Grows : TreeNode → TreeNode → List FileAnnouncement → Type 0
Grows n n' files =
    (x : Text) (q : List Text)
    → there (node_at n' (x ∷ q)) ≡ (there (node_at n (x ∷ q)) || through (x ∷ q) files)

pub through-append :
    (p : List Text) (xs ys : List FileAnnouncement)
    → through p (xs ++ ys) ≡ (through p xs || through p ys)
unfolding through
through-append p [] ys = refl
through-append p (x ∷ xs) ys = ground (arith, through-append p xs ys)

begins-same : (x : Text) (p path : List Text) → begins (x ∷ p) (x ∷ path) ≡ begins p path
unfolding begins
begins-same x p path = rw (==_refl x) refl

begins-other : (x y : Text) (p path : List Text) → x ≢ y → begins (x ∷ p) (y ∷ path) ≡ false
unfolding begins
begins-other x y p path ne = rw (==_ne x y ne) refl

-- The announcements of a group go nowhere else.
pub through-other :
    (x y : Text) (q : List Text) (files : List FileAnnouncement)
    → x ≢ y
    → All (StartsWith x) files
    → through (y ∷ q) files ≡ false
unfolding through
through-other x y q [] ne started = refl
through-other x y q (fa ∷ files) ne (start, started) =
    let rest = through-other x y q files ne started in
    elim (start_cases x fa start) [
      | inl (d, t) ↦ rw (t, begins-other y x q [] (λ e. ne (sym e))) rest
      | inr (z, r, d, t, _, _, _) ↦ rw (t, begins-other y x q (z ∷ r) (λ e. ne (sym e))) rest
    ]

-- They all go to the group's node or through it.
pub through-first :
    (x : Text) (files : List FileAnnouncement)
    → files ≢ []
    → All (StartsWith x) files
    → through (x ∷ []) files ≡ true
unfolding through begins
through-first x [] ne started = absurd (ne refl)
through-first x (fa ∷ files) ne (start, started) = elim (start_cases x fa start) [
  | inl (d, t) ↦ rw (t, begins-same x [] []) refl
  | inr (z, r, d, t, _, _, _) ↦ rw (t, begins-same x [] (z ∷ r)) refl
]

-- Those that go below it are handed on.
pub through-below :
    (x y : Text) (q : List Text) (s : FileStat) (files : List FileAnnouncement)
    → All (StartsWith x) files
    → through (x ∷ y ∷ q) files ≡ through (y ∷ q) (nested_of s files)
unfolding through begins place_files
through-below x y q s [] started = refl
through-below x y q s (fa ∷ files) (start, started) = elim (start_cases x fa start) [
  | inl (d, t) ↦
      rw (d, t, begins-same x (y ∷ q) []) (through-below x y q (apply_stat s fa) files started)
  | inr (z, r, d, t, t', _, _) ↦
      rw (d, t, begins-same x (y ∷ q) (z ∷ r), t')
        (ap (λ b. begins (y ∷ q) (z ∷ r) || b) (through-below x y q s files started))
]

or_left : (a b : Bool) → a ≡ true → (a || b) ≡ true
or_left a b e = rw e refl

or_right : (a b : Bool) → b ≡ true → (a || b) ≡ true
or_right true b e = refl
or_right false b e = e

pub same_truth : (a b : Bool) → (a ≡ true → b ≡ true) → (b ≡ true → a ≡ true) → a ≡ b
same_truth true b f g = sym (f refl)
same_truth false true f g = g refl
same_truth false false f g = refl

through-member :
    (p : List Text) (files : List FileAnnouncement) (fa : FileAnnouncement)
    → Among files fa
    → begins p (target fa) ≡ true
    → through p files ≡ true
unfolding through
through-member p [] fa m e = absurd m
through-member p (fa' ∷ files) fa (inl same) e =
    or_left (begins p (target fa')) (through p files)
      (ap (λ (z : FileAnnouncement). begins p (target z)) (sym same) ∙ e)
through-member p (fa' ∷ files) fa (inr m) e =
    or_right (begins p (target fa')) (through p files) (through-member p files fa m e)

pub through-among :
    (p : List Text) (xs ys : List FileAnnouncement)
    → All (Among ys) xs
    → through p xs ≡ true
    → through p ys ≡ true
unfolding through
through-among p [] ys m e = cc
through-among p (fa ∷ xs) ys m e = elim (Bool-cases (begins p (target fa))) [
  | inl b ↦ through-member p ys fa m.0 b
  | inr b ↦ through-among p xs ys m.1 (rw b at e)
]

begins-All : (P : Text → Type 0) (p path : List Text) → begins p path ≡ true → All P path → All P p
unfolding begins
begins-All P [] path e h = tt
begins-All P (x ∷ p) [] e h = cc
begins-All P (x ∷ p) (y ∷ path) e h = elim (text_eq.dec x y) [
  | yes same ↦ (subst P (sym same) h.0, begins-All P p path (ground (arith, e)) h.1)
  | no ne ↦ absurd (let f : false ≡ true = ground (arith, e, ne) in cc)
]

target-All : (P : Text → Type 0) (fa : FileAnnouncement) → All P (parts fa) → All P (target fa)
target-All P fa h = elim (Bool-cases fa.deletion) [
  | inl d ↦ rw d (first-All (parts fa) h)
  | inr d ↦ rw d h
]
  where
    first-All : (path : List Text) → All P path → All P (first_only path)
    first-All [] k = tt
    first-All (x ∷ path) k = (k.0, tt)

pub through-All :
    (P : Text → Type 0) (p : List Text) (files : List FileAnnouncement)
    → All (λ fa. All P (parts fa)) files
    → through p files ≡ true
    → All P p
unfolding through
through-All P p [] h e = cc
through-All P p (fa ∷ files) h e = elim (Bool-cases (begins p (target fa))) [
  | inl b ↦ begins-All P p (target fa) b (target-All P fa h.0)
  | inr b ↦ through-All P p files h.1 (rw b at e)
]
