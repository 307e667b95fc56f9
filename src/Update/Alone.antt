-- ===== src/Update/Alone.antt =====
-- The stat at a path that only one announcement is for.

use dftp.Base.{
  pos, ◌<ℤ◌, false, List, [], ◌∷◌, ◌++◌, length, length-append, All-append, Option, none, some,
  Text, text_eq, path_eq, All, ◌≡◌, ◌≢◌, refl, arith, ap, ◌∙◌, sym,
}
use dftp.Fat.{FileStat, zero_stat}
use dftp.Update.{FileAnnouncement, parts, ensure_init, apply_stat}
use dftp.Update.Target.{
  target, last_name, stat_or_new, effect-hit, effect-miss, take_in, take_in-append, StopsAt,
}
use dftp.Update.Stats.{ready_files}

-- Of the announcements, only the one between is for the path or for a path below it.
pub record IsAlone (path : List Text) (before after : List FileAnnouncement) : Type 0 where
  pub none_before : All (λ fa. target fa ≢ path) (ready_files before)
  pub none_after : All (λ fa. target fa ≢ path) (ready_files after)
  pub stop_before : All (StopsAt path) (ready_files before)
  pub stop_after : All (StopsAt path) (ready_files after)

pub ready_files-append :
    (xs ys : List FileAnnouncement) → ready_files (xs ++ ys) ≡ ready_files xs ++ ready_files ys
ready_files-append [] ys = refl
ready_files-append (fa ∷ xs) ys = ap (λ r. ensure_init fa ∷ r) (ready_files-append xs ys)

longer : (path : List Text) (name : Text) (rest : List Text) → path ≢ path ++ name ∷ rest
longer path name rest e =
    omega (arith, ap (λ (l : List Text). length l) e, length-append path (name ∷ rest))

take_in-misses :
    (path : List Text) (o : Option FileStat) (files : List FileAnnouncement)
    → All (λ fa. target fa ≢ path) files
    → take_in path o files ≡ o
unfolding take_in
take_in-misses path o [] h = refl
take_in-misses path o (fa ∷ files) h =
    rw (effect-miss path o fa h.0) (take_in-misses path o files h.1)

-- It is for a file, and its time is set.
pub record IsFile (fa : FileAnnouncement) (path : List Text) : Type 0 where
  pub for_path : parts (ensure_init fa) ≡ path
  pub kept : fa.deletion ≡ false
  pub not_dir : fa.stat.dir ≡ false
  pub timed : pos 0 <ℤ fa.stat.last_info_updated

module _ (fa : FileAnnouncement) (x : Text) (q : List Text) (h : IsFile fa (x ∷ q)) where
  taken : apply_stat (record zero_stat { basename = last_name (x ∷ q) }) (ensure_init fa) ≡ fa.stat
  unfolding apply_stat ensure_init
  taken = ground (arith, h.kept, h.not_dir, h.timed)

  pub targeted : target (ensure_init fa) ≡ x ∷ q
  unfolding ensure_init
  targeted = ground (arith, h.kept, h.for_path)

  pub take_in-IsAlone :
      (before after : List FileAnnouncement)
      → IsAlone (x ∷ q) before after
      → take_in (x ∷ q) none (ready_files (before ++ fa ∷ after)) ≡ some fa.stat
  unfolding take_in
  take_in-IsAlone before after a =
      let o : Option FileStat = none in
      ap (take_in (x ∷ q) o) (ready_files-append before (fa ∷ after))
      ∙ take_in-append (x ∷ q) o (ready_files before) (ready_files (fa ∷ after))
      ∙ ap (λ z. take_in (x ∷ q) z (ready_files (fa ∷ after)))
          (take_in-misses (x ∷ q) o (ready_files before) a.none_before)
      ∙ ap (λ z. take_in (x ∷ q) z (ready_files after))
          (effect-hit (x ∷ q) o (ensure_init fa) targeted)
      ∙ take_in-misses (x ∷ q) (some (apply_stat (stat_or_new (x ∷ q) o) (ensure_init fa)))
          (ready_files after) a.none_after
      ∙ ap some taken

  pub stops :
      (before after : List FileAnnouncement)
      → IsAlone (x ∷ q) before after
      → All (StopsAt (x ∷ q)) (ready_files (before ++ fa ∷ after))
  stops before after a = rw (ready_files-append before (fa ∷ after)) (
      All-append (StopsAt (x ∷ q)) (ready_files before) (ready_files (fa ∷ after)) a.stop_before
        ((λ name rest e. longer (x ∷ q) name rest (sym targeted ∙ e)), a.stop_after))
