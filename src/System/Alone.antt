-- ===== src/System/Alone.antt =====
-- The stat of a file that only one announcement of all scans of a system is for.
use dftp.Base.{
  arith, false, List, [], ◌∷◌, ◌++◌, none, some, Text, text_eq, path_eq, ◌≡◌, refl, inl, All,
  All-map, All-append, ap, ◌∙◌, sym, subst,
}
use dftp.Fat.Paths.{stat_at}
use dftp.Update.{FileAnnouncement, ensure_init}
use dftp.Update.Target.{target, StopsAt, take_in}
use dftp.Update.Stats.{ready_files}
use dftp.Update.Runs.{all_ready}
use dftp.Update.Sets.{Compatible}
use dftp.Update.Alone.{IsAlone, IsFile, ready_files-append, take_in-IsAlone, stops}
use dftp.Main.Nodes.{own_scan}
use dftp.System.{Started, Member}
use dftp.System.Known.{MemberKnown}
use dftp.System.Members.{Belongs, OwnUpdate}
use dftp.System.Settled.{scans, HasHeardAll, settles}

-- What the programs of a system have scanned, as one list.
abbrev pub all_scanned : List Started → List FileAnnouncement
all_scanned [] = []
all_scanned (p ∷ ps) = own_scan p.start.cluster ++ all_scanned ps

ready_files-all_scanned : (ps : List Started) → ready_files (all_scanned ps) ≡ all_ready (scans ps)
ready_files-all_scanned [] = refl
ready_files-all_scanned (p ∷ ps) =
    ready_files-append (own_scan p.start.cluster) (all_scanned ps)
    ∙ ap (λ z. ready_files (own_scan p.start.cluster) ++ z) (ready_files-all_scanned ps)

-- Announcements of which those for the path are one file's are compatible.
one_Compatible :
    (path : List Text) (fa : FileAnnouncement) (xs : List FileAnnouncement)
    → fa.stat.dir ≡ false
    → All (λ b. target b ≡ path → b ≡ fa) xs
    → All (λ a. All (Compatible path a) xs) xs
one_Compatible path fa xs file hits =
    All-map
      (λ a hit.
        All-map
          (λ b hit' e e'. (
            ap (λ (z : FileAnnouncement). z.stat.dir) (hit e) ∙ file,
            ap (λ (z : FileAnnouncement). z.stat.dir) (hit' e') ∙ file,
            inl (ap (λ (z : FileAnnouncement). z.stat) (hit e ∙ sym (hit' e'))),
          ))
          xs hits)
      xs hits

module _ (fa : FileAnnouncement) (x : Text) (q : List Text) (h : IsFile fa (x ∷ q))
    (before after : List FileAnnouncement) (alone : IsAlone (x ∷ q) before after) where
  ready_file : (ensure_init fa).stat.dir ≡ false
  unfolding ensure_init
  ready_file = ground (arith, h.kept, h.not_dir)

  compatible :
      All
        (λ a. All (Compatible (x ∷ q) a) (ready_files (before ++ fa ∷ after)))
        (ready_files (before ++ fa ∷ after))
  unfolding ensure_init
  compatible =
      one_Compatible (x ∷ q) (ensure_init fa) (ready_files (before ++ fa ∷ after)) ready_file (
        subst (All (λ b. target b ≡ x ∷ q → b ≡ ensure_init fa))
          (sym (ready_files-append before (fa ∷ after)))
          (All-append (λ b. target b ≡ x ∷ q → b ≡ ensure_init fa) (ready_files before)
            (ready_files (fa ∷ after))
            (All-map (λ b ne e. absurd (ne e)) (ready_files before) alone.none_before)
            ((λ e. refl), All-map (λ b ne e. absurd (ne e)) (ready_files after) alone.none_after)))

  -- The stat of a member that has heard all is that of the announcement.
  pub settles-IsAlone :
      (ps : List Started) (m : Member)
      → MemberKnown (Belongs ps) (OwnUpdate ps) m
      → HasHeardAll ps m
      → all_scanned ps ≡ before ++ fa ∷ after
      → stat_at m.cluster.dfs_root (x ∷ q) ≡ some fa.stat
  settles-IsAlone ps m k all e =
      let same : ready_files (before ++ fa ∷ after) ≡ all_ready (scans ps) =
        ap ready_files (sym e) ∙ ready_files-all_scanned ps in
      settles ps m k x q all
        (subst (All (StopsAt (x ∷ q))) same (stops fa x q h before after alone))
        (subst (λ z. All (λ a. All (Compatible (x ∷ q) a) z) z) same compatible)
      ∙ ap (take_in (x ∷ q) none) (sym same)
      ∙ take_in-IsAlone fa x q h before after alone
