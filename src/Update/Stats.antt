-- ===== src/Update/Stats.antt =====
-- What `update` leaves at the paths where announcements end, for any announcements.

use dftp.Base.{
  ℕ, zero, suc, ◌+◌, ◌≤◌, List, [], ◌∷◌, map, Option, none, some, Text, text_eq, path_eq, ◌≡◌, ◌≢◌,
  refl, arith, All, All-append_left, All-append_right, length, ap, ◌∙◌, sym, Outcome, returns,
  subst,
}
use dftp.Strings.{trim_prefix, split, slash}
use dftp.Strings.Laws.{split-cons}
use dftp.Fat.{TreeNode, get_filestat}
use dftp.Fat.Paths.{stat_at}
use dftp.Update.{
  FileAnnouncement, FileGroup, parts, set_as_dir, recalculate_owner, entry_or_new, put_child,
  update_nested, update_group, update_groups, update_files, update, group_announcements_by_filepart,
  levels, ensure_init, elements,
}
use dftp.Update.Groups.{IsReady, IsGroup, all_files, group_announcements_lem}
use dftp.Update.Target.{take_in, take_in-append, StopsAt}
use dftp.Update.Placed.{nested-IsReady, FitsIn, nested-FitsIn}
use dftp.Update.Entries.{
  TakesIn, node_at-set_as_dir, node_at-recalculate_owner, placed_entry, entry_nested, put_correct,
}

-- A call that returns such a tree, on announcements of at most `k` parts.
abbrev IsCorrect : ℕ → (TreeNode → List FileAnnouncement → Outcome TreeNode) → Type 0
IsCorrect k go =
    (n : TreeNode) (files : List FileAnnouncement)
    → All IsReady files
    → All (FitsIn k) files
    → (n' : TreeNode) × (go n files ≡ returns n') × TakesIn n n' files

module _ (k : ℕ) (go : TreeNode → List FileAnnouncement → Outcome TreeNode)
    (correct : IsCorrect k go) where
  nested_correct :
      (e : TreeNode) (nested : List FileAnnouncement)
      → All IsReady nested
      → All (FitsIn k) nested
      → (e' : TreeNode) × (update_nested go e nested ≡ returns e')
        × TakesIn e e' nested
        × (nested ≡ [] → e' ≡ e)
  unfolding update_nested take_in
  nested_correct e [] ready fit = (e, refl, λ x q s. refl, λ _. refl)
  nested_correct e (fa ∷ nested) ready fit =
      let (e', p, t) = correct (set_as_dir e) (fa ∷ nested) ready fit in
      (
        recalculate_owner e',
        rw p,
        λ x q s. rw (node_at-recalculate_owner e' x q, ← node_at-set_as_dir e x q) (t x q s),
        λ h. cc,
      )

  group_correct :
      (n : TreeNode) (g : FileGroup)
      → IsGroup g
      → All (FitsIn (suc k)) g.files
      → (n' : TreeNode) × (update_group go n g ≡ returns n') × TakesIn n n' g.files
  unfolding update_group
  group_correct n g (ne, started) fit =
      let s = get_filestat (entry_or_new n g.name) in
      let (e', p, t, same) =
        nested_correct (placed_entry n g.name g.files) (entry_nested n g.name g.files)
          (nested-IsReady g.name s g.files started)
          (nested-FitsIn g.name k s g.files started fit) in
      (put_child n g.name e', rw p, put_correct n e' g.name g.files ne started t same)

  groups_correct :
      (n : TreeNode) (gs : List FileGroup)
      → All IsGroup gs
      → All (FitsIn (suc k)) (all_files gs)
      → (n' : TreeNode) × (update_groups go n gs ≡ returns n') × TakesIn n n' (all_files gs)
  unfolding update_groups take_in
  groups_correct n [] named fit = (n, refl, λ x q s. refl)
  groups_correct n (g ∷ gs) (group, named) fit =
      let (n1, p1, t1) =
        group_correct n g group (All-append_left (FitsIn (suc k)) g.files (all_files gs) fit) in
      let (n2, p2, t2) =
        groups_correct n1 gs named (All-append_right (FitsIn (suc k)) g.files (all_files gs) fit) in
      (
        n2,
        rw (p1, p2),
        λ x q stops.
            t2 x q (All-append_right (StopsAt (x ∷ q)) g.files (all_files gs) stops)
            ∙ ap (λ o. take_in (x ∷ q) o (all_files gs))
                (t1 x q (All-append_left (StopsAt (x ∷ q)) g.files (all_files gs) stops))
            ∙ sym (take_in-append (x ∷ q) (stat_at n (x ∷ q)) g.files (all_files gs)),
      )

update_files-IsCorrect : (fuel : ℕ) → IsCorrect fuel (update_files (suc fuel))
unfolding update_files take_in group_announcements_by_filepart
update_files-IsCorrect zero n [] ready fit = (n, refl, λ x q s. refl)
update_files-IsCorrect zero n (fa ∷ files) ((x, r, e), ready) (f, fit) =
    absurd (omega (arith, ap (λ (l : List Text). length l) e))
update_files-IsCorrect (suc fuel) n files ready fit =
    let (gs, p, runs) = group_announcements_lem files ready in
    let (n', p', t) =
      groups_correct fuel (update_files (suc fuel)) (update_files-IsCorrect fuel) n gs runs.named
        (rw runs.covers fit) in
    (n', rw (p, p'), rw runs.covers at t)

-- The announcements once `ensureInit` has set their parts.
abbrev pub ready_files : List FileAnnouncement → List FileAnnouncement
ready_files = map ensure_init

-- A first part is there unless the slice was set to an empty one beforehand.
abbrev pub IsFresh : FileAnnouncement → Type 0
IsFresh fa = fa.full_name_parts ≢ some []

ready_parts :
    (o : Option (List Text)) (t : Text)
    → o ≢ some []
    → (x : Text) × (r : List Text) × (elements
          (elim o [ none ↦ some (split t b'/') | some ps ↦ some ps ])
        ≡ x ∷ r)
ready_parts none t h = split-cons t b'/'
ready_parts (some []) t h = absurd (h refl)
ready_parts (some (x ∷ r)) t h = (x, r, refl)

ensure_init-IsReady : (fa : FileAnnouncement) → IsFresh fa → IsReady (ensure_init fa)
unfolding ensure_init
ensure_init-IsReady fa h = ready_parts fa.full_name_parts (trim_prefix fa.full_name slash) h

pub files-IsReady :
    (files : List FileAnnouncement) → All IsFresh files → All IsReady (ready_files files)
files-IsReady [] h = tt
files-IsReady (fa ∷ files) (f, h) = (ensure_init-IsReady fa f, files-IsReady files h)

pub levels-suc : (files : List FileAnnouncement) → (k : ℕ) × (levels files ≡ suc k)
levels-suc [] = (0, refl)
levels-suc (fa ∷ files) = let (k, e) = levels-suc files in (length (parts fa) + k, omega (arith, e))

pub files-FitsIn :
    (k : ℕ) (files : List FileAnnouncement) → levels files ≤ suc k → All (FitsIn k) files
files-FitsIn k [] h = tt
files-FitsIn k (fa ∷ files) h =
    let (j, e) = levels-suc files in (omega (arith, e), files-FitsIn k files (omega arith))

-- `Update` returns a tree that has taken in the announcements.
abbrev pub Updates : TreeNode → List FileAnnouncement → Type 0
Updates n files = (n' : TreeNode) × (update n files ≡ returns n') × TakesIn n n' (ready_files files)

-- If no announcement has an empty slice of parts set beforehand, `Update` comes to an end without a
-- panic and within the fuel, and at every path but the root's, below which nothing is announced, the
-- tree has the stat that taking in the announcements for that path, in order, leaves.
pub update_correct :
    (n : TreeNode) (files : List FileAnnouncement) → All IsFresh files → Updates n files
unfolding update
update_correct n files fresh =
    let ready = files-IsReady files fresh in
    let (k, e) = levels-suc (ready_files files) in
    let (n', p, t) =
      update_files-IsCorrect k n (ready_files files) ready
        (files-FitsIn k (ready_files files) (omega (arith, e))) in
    (n', subst (λ l. update_files l n (ready_files files) ≡ returns n') (sym e) p, t)
