-- ===== src/Update/Sets.antt =====
-- Announcements that are taken in more than once: only which ones they are matters.
use dftp.Base.{
  ◌<ℤ◌, false, List, Option, some, Text, path_eq, text_eq, ◌≡◌, refl, arith, ◌⊎◌, inl, inr, All,
  All-map, Among, among-All, ap, ◌∙◌, sym,
}
use dftp.Base.Folds.{fold-among}
use dftp.Fat.{FileStat}
use dftp.Update.{FileAnnouncement, apply_stat}
use dftp.Update.Target.{target, stat_or_new, effect, effect-hit, effect-miss, take_in}
use dftp.Update.Merge.{time, take_in-eq-foldl, apply_stat_comm, effect_commute}

-- Two announcements of the path are for files, and if they have one time they have one stat.
abbrev pub Compatible : List Text → FileAnnouncement → FileAnnouncement → Type 0
Compatible path a b =
    target a ≡ path
    → target b ≡ path
    → (a.stat.dir ≡ false)
      × (b.stat.dir ≡ false)
      × ((a.stat ≡ b.stat) ⊎ ((time a <ℤ time b) ⊎ (time b <ℤ time a)))

apply_stat-same :
    (s : FileStat) (a b : FileAnnouncement) → a.stat ≡ b.stat → apply_stat s a ≡ apply_stat s b
unfolding apply_stat
apply_stat-same s a b e = rw e refl

apply_stat_repeat :
    (s : FileStat) (a : FileAnnouncement)
    → a.stat.dir ≡ false
    → apply_stat (apply_stat s a) a ≡ apply_stat s a
unfolding apply_stat
apply_stat_repeat s a d = ground arith

apply_stat-Compatible :
    (s : FileStat) (a b : FileAnnouncement)
    → a.stat.dir ≡ false
    → b.stat.dir ≡ false
    → (a.stat ≡ b.stat) ⊎ ((time a <ℤ time b) ⊎ (time b <ℤ time a))
    → apply_stat (apply_stat s a) b ≡ apply_stat (apply_stat s b) a
apply_stat-Compatible s a b da db (inl e) =
    ap (λ z. apply_stat z b) (apply_stat-same s a b e)
    ∙ apply_stat-same (apply_stat s b) b a (sym e)
apply_stat-Compatible s a b da db (inr t) = apply_stat_comm s a b da db t

effect-Compatible :
    (path : List Text) (o : Option FileStat) (a b : FileAnnouncement)
    → Compatible path a b
    → effect path (effect path o a) b ≡ effect path (effect path o b) a
effect-Compatible path o a b h =
    effect_commute path o a b
      λ p q s. let (da, db, t) = h p q in apply_stat-Compatible s a b da db t

effect_repeat :
    (path : List Text) (o : Option FileStat) (a : FileAnnouncement)
    → Compatible path a a
    → effect path (effect path o a) a ≡ effect path o a
effect_repeat path o a h = elim (path_eq.dec (target a) path) [
  | no n ↦ effect-miss path (effect path o a) a n
  | yes p ↦ rw (effect-hit path o a p) (
      effect-hit path (some (apply_stat (stat_or_new path o) a)) a p
      ∙ ap some (apply_stat_repeat (stat_or_new path o) a (h p p).0))
]

-- Taking in the same announcements, in any order and any number of times each, leaves the same stat.
pub take_in-among :
    (path : List Text) (o : Option FileStat) (xs ys : List FileAnnouncement)
    → All (Among ys) xs
    → All (Among xs) ys
    → All (λ a. All (Compatible path a) xs) xs
    → take_in path o xs ≡ take_in path o ys
take_in-among path o xs ys m n h =
    let within = λ (a : FileAnnouncement) (k : All (Compatible path a) xs).
      All-map (λ b i. among-All (Compatible path a) xs i k) ys n in
    take_in-eq-foldl path o xs
    ∙ fold-among (Compatible path) (effect path) (effect-Compatible path) (effect_repeat path) o xs
        ys m n (All-map (λ a i. among-All (λ b. All (Compatible path b) xs) xs i h) ys n)
        (All-map within xs h)
    ∙ sym (take_in-eq-foldl path o ys)
