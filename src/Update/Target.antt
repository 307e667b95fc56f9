-- ===== src/Update/Target.antt =====
-- What an update should leave at one path: the announcements that end there, taken in one by one.

use dftp.Base.{
  true, false, List, [], ◌∷◌, ◌++◌, Option, none, some, Text, ◌==◌, ==_refl, text_eq, path_eq,
  if◌then◌else◌, ◌≡◌, ◌≢◌, refl, arith, Bool-cases, inl, inr, ◌⊎◌,
}
use dftp.Fat.{FileStat, zero_stat}
use dftp.Update.{FileAnnouncement, parts, goes_down, name_shift, apply_stat}
use dftp.Update.Groups.{StartsWith}

abbrev pub last_name : List Text → Text
last_name [] = []
last_name (x ∷ []) = x
last_name (x ∷ y ∷ r) = last_name (y ∷ r)

-- The path of the node whose stat an announcement is for: a deletion is for its first part.
abbrev pub first_only : List Text → List Text
first_only [] = []
first_only (x ∷ r) = x ∷ []

abbrev pub target : FileAnnouncement → List Text
target fa = if fa.deletion then first_only (parts fa) else parts fa

-- The stat of the node at a path, or of the node that is made there.
abbrev pub stat_or_new : List Text → Option FileStat → FileStat
stat_or_new path none = record zero_stat { basename = last_name path }
stat_or_new path (some stat) = stat

abbrev pub effect : List Text → Option FileStat → FileAnnouncement → Option FileStat
effect path o fa = if target fa == path then some (apply_stat (stat_or_new path o) fa) else o

pub effect-miss :
    (path : List Text) (o : Option FileStat) (fa : FileAnnouncement)
    → target fa ≢ path
    → effect path o fa ≡ o
effect-miss path o fa ne = ground arith

pub effect-hit :
    (path : List Text) (o : Option FileStat) (fa : FileAnnouncement)
    → target fa ≡ path
    → effect path o fa ≡ some (apply_stat (stat_or_new path o) fa)
effect-hit path o fa e = rw (e, ==_refl)

unfoldable pub take_in : List Text → Option FileStat → List FileAnnouncement → Option FileStat
take_in path o [] = o
take_in path o (fa ∷ files) = take_in path (effect path o fa) files

pub take_in-append :
    (path : List Text) (o : Option FileStat) (xs ys : List FileAnnouncement)
    → take_in path o (xs ++ ys) ≡ take_in path (take_in path o xs) ys
unfolding take_in
take_in-append path o [] ys = refl
take_in-append path o (x ∷ xs) ys = take_in-append path (effect path o x) xs ys

-- The announcement does not pass through the path to a node below it.
abbrev pub StopsAt : List Text → FileAnnouncement → Type 0
StopsAt path fa = (name : Text) (rest : List Text) → target fa ≢ path ++ name ∷ rest

-- The cases of an announcement that starts with a name: it ends in the name's node, or goes down.
pub start_cases :
    (x : Text) (fa : FileAnnouncement)
    → StartsWith x fa
    → ((goes_down fa ≡ false) × (target fa ≡ x ∷ []))
      ⊎ ((y : Text) × (r : List Text) × (goes_down fa ≡ true)
          × (target fa ≡ x ∷ y ∷ r)
          × (target (name_shift fa) ≡ y ∷ r)
          × (parts (name_shift fa) ≡ y ∷ r)
          × (parts fa ≡ x ∷ y ∷ r))
start_cases x fa ([], e) = inl (ground arith, ground arith)
start_cases x fa (y ∷ r, e) = elim (Bool-cases fa.deletion) [
  | inl d ↦ inl (ground arith, ground arith)
  | inr d ↦ inr (y, r, ground arith, ground arith, ground arith, ground arith, e)
]
