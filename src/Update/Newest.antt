-- ===== src/Update/Newest.antt =====
-- Which stat wins at a path.
use dftp.Base.{
  ◌≤ℤ◌, true, List, [], ◌∷◌, Option, some, Text, path_eq, text_eq, ◌≡◌, refl, arith, ◌⊎◌, inl, inr,
  All, Any,
}
use dftp.Fat.{FileStat, multiple_node_owners}
use dftp.Update.{FileAnnouncement, apply_stat}
use dftp.Update.Target.{target, stat_or_new, effect-hit, effect-miss, take_in}
use dftp.Update.Merge.{time}

-- The stat is the announced one; that of a directory may be marked as having several owners.
abbrev pub IsStatOf : FileStat → FileAnnouncement → Type 0
IsStatOf s fa =
    (s ≡ fa.stat)
    ⊎ ((fa.stat.dir ≡ true) × (s ≡ record fa.stat { owner_node = multiple_node_owners }))

-- `s` is what was there or what was announced for the path, and nothing of it is newer.
pub record IsNewest (path : List Text) (o : Option FileStat) (files : List FileAnnouncement)
    (s : FileStat) : Type 0 where
  pub old_le : (stat_or_new path o).last_info_updated ≤ℤ s.last_info_updated
  pub all_le : All (λ fa. target fa ≡ path → time fa ≤ℤ s.last_info_updated) files
  pub origin : (s ≡ stat_or_new path o) ⊎ Any (λ fa. (target fa ≡ path) × IsStatOf s fa) files

apply_stat-cases :
    (s : FileStat) (fa : FileAnnouncement)
    → (s.last_info_updated ≤ℤ (apply_stat s fa).last_info_updated)
      × (time fa ≤ℤ (apply_stat s fa).last_info_updated)
      × ((apply_stat s fa ≡ s) ⊎ IsStatOf (apply_stat s fa) fa)
unfolding apply_stat
apply_stat-cases s fa = ground arith

-- Taking in announcements for a path that is there leaves the newest stat.
pub take_in-IsNewest :
    (path : List Text) (s0 : FileStat) (files : List FileAnnouncement)
    → (s : FileStat) × (take_in path (some s0) files ≡ some s) × IsNewest path (some s0) files s
unfolding take_in
take_in-IsNewest path s0 [] =
    (s0, refl, record { old_le = omega arith; all_le = tt; origin = inl refl })
take_in-IsNewest path s0 (fa ∷ files) = elim (path_eq.dec (target fa) path) [
  | yes p ↦
      let (s, e, i) = take_in-IsNewest path (apply_stat s0 fa) files in
      let (l, t, c) = apply_stat-cases s0 fa in
      let low = i.old_le in
      (
        s,
        rw (effect-hit path (some s0) fa p) e,
        record {
          old_le = omega arith;
          all_le = (λ _. omega arith, i.all_le);
          origin = ground (arith, i.origin);
        },
      )
  | no p ↦
      let (s, e, i) = take_in-IsNewest path s0 files in
      (
        s,
        rw (effect-miss path (some s0) fa p) e,
        record {
          old_le = i.old_le;
          all_le = (λ h. absurd (p h), i.all_le);
          origin = elim i.origin [ inl e ↦ inl e | inr a ↦ inr (inr a) ];
        },
      )
]
