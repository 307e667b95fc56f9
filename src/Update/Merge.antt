-- ===== src/Update/Merge.antt =====
-- How conflicting announcements of one path are resolved, and when their order does not matter.
use mathlib.Core.List.{Perm}
use mathlib.Core.Logic.{∥∥₁_elim}
use mathlib.Core.HLevel.{hedberg}
use dftp.Base.{
  ℤ, ◌<ℤ◌, false, List, [], ◌∷◌, Option, some, Text, path_eq, text_eq, ◌≡◌, refl, arith, ◌⊎◌, foldl,
  ap, ◌∙◌, sym,
}
use native.Mathlib.Decide.{ℕ_discrete}
use dftp.Base.Perms.{AllPairs, fold-perm}
use dftp.Fat.{FileStat}
use dftp.Update.{FileAnnouncement, apply_stat}
use dftp.Update.Target.{target, stat_or_new, effect, effect-hit, effect-miss, take_in}

abbrev pub time : FileAnnouncement → ℤ
time fa = fa.stat.last_info_updated

-- Of two announcements of one path, both are for a file, and at different times.
abbrev pub Differ : List Text → FileAnnouncement → FileAnnouncement → Type 0
Differ path a b =
    target a ≡ path
    → target b ≡ path
    → (a.stat.dir ≡ false) × (b.stat.dir ≡ false) × ((time a <ℤ time b) ⊎ (time b <ℤ time a))

Differ-sym : (path : List Text) (a b : FileAnnouncement) → Differ path a b → Differ path b a
Differ-sym path a b h p q = ground (arith, h q p)

pub apply_stat_comm :
    (s : FileStat) (a b : FileAnnouncement)
    → a.stat.dir ≡ false
    → b.stat.dir ≡ false
    → (time a <ℤ time b) ⊎ (time b <ℤ time a)
    → apply_stat (apply_stat s a) b ≡ apply_stat (apply_stat s b) a
unfolding apply_stat
apply_stat_comm s a b da db t = ground arith

-- The effects of two announcements commute where what they write commutes.
pub effect_commute :
    (path : List Text) (o : Option FileStat) (a b : FileAnnouncement)
    → (target a ≡ path
        → target b ≡ path
        → (s : FileStat) → apply_stat (apply_stat s a) b ≡ apply_stat (apply_stat s b) a)
    → effect path (effect path o a) b ≡ effect path (effect path o b) a
effect_commute path o a b h = elim (path_eq.dec (target a) path) [
  | no n ↦ rw (effect-miss path o a n, effect-miss path (effect path o b) a n)
  | yes p ↦ elim (path_eq.dec (target b) path) [
    | no n ↦ rw (effect-miss path o b n, effect-miss path (effect path o a) b n)
    | yes q ↦
        rw (effect-hit path o a p, effect-hit path o b q)
          (effect-hit path (some (apply_stat (stat_or_new path o) a)) b q
            ∙ ap some (h p q (stat_or_new path o))
            ∙ sym (effect-hit path (some (apply_stat (stat_or_new path o) b)) a p))
  ]
]

effect_comm :
    (path : List Text) (o : Option FileStat) (a b : FileAnnouncement)
    → Differ path a b
    → effect path (effect path o a) b ≡ effect path (effect path o b) a
effect_comm path o a b h =
    effect_commute path o a b λ p q s. let (da, db, t) = h p q in apply_stat_comm s a b da db t

pub take_in-eq-foldl :
    (path : List Text) (o : Option FileStat) (files : List FileAnnouncement)
    → take_in path o files ≡ foldl (effect path) o files
unfolding take_in
take_in-eq-foldl path o [] = refl
take_in-eq-foldl path o (fa ∷ files) = take_in-eq-foldl path (effect path o fa) files

stat_set : IsSet (Option FileStat)
stat_set = hedberg (hlevel ℕ_discrete)

-- Announcements of files at different times can be taken in in any order.
pub take_in-perm :
    (path : List Text) (o : Option FileStat) (xs ys : List FileAnnouncement)
    → AllPairs (Differ path) xs
    → Perm xs ys
    → take_in path o xs ≡ take_in path o ys
take_in-perm path o xs ys d p = ∥∥₁_elim p (stat_set _ _) λ q.
    take_in-eq-foldl path o xs
    ∙ fold-perm (Differ path) (effect path) (effect_comm path) (Differ-sym path) q d o
    ∙ sym (take_in-eq-foldl path o ys)

-- Of the two, in either order, the first to come stays.
abbrev pub FirstStays : FileStat → FileAnnouncement → FileAnnouncement → Type 0
FirstStays s a b =
    (apply_stat (apply_stat s a) b ≡ a.stat) × (apply_stat (apply_stat s b) a ≡ b.stat)

-- Of two announcements of one time, newer than what is there, at a node that has no owner, the first to
-- come stays.
pub apply_stat_tie :
    (s : FileStat) (a b : FileAnnouncement)
    → time a ≡ time b
    → s.last_info_updated <ℤ time a
    → s.owner_node ≡ []
    → FirstStays s a b
unfolding apply_stat
apply_stat_tie s a b e h o = ground arith
