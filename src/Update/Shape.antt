-- ===== src/Update/Shape.antt =====
-- Which nodes an update leaves in the tree: those that were there, and one for each beginning of a path
-- that an announcement goes to.
use dftp.Base.{
  ℕ, zero, suc, Bool, true, false, ◌||◌, List, [], ◌∷◌, ◌++◌, Text, ◌==◌, text_eq, path_eq,
  if◌then◌else◌, ◌≡◌, ◌≢◌, refl, arith, inl, inr, Option-cases, All, All-append_left,
  All-append_right, length, ap, ◌∙◌, sym, subst, ==_refl, ==_ne, Outcome, returns,
}
use dftp.Fat.{TreeNode, tree_node, child_nodes, get_filestat, lookup_child}
use dftp.Fat.Paths.{node_at, lookup_child-insert_child}
use dftp.Update.{
  FileAnnouncement, FileGroup, set_as_dir, recalculate_owner, entry_or_new, put_child,
  update_nested, update_group, update_groups, update_files, update, group_announcements_by_filepart,
}
use dftp.Update.Groups.{IsReady, StartsWith, IsGroup, all_files, group_announcements_lem}
use dftp.Update.Placed.{nested-IsReady, FitsIn, nested-FitsIn}
use dftp.Update.Entries.{node_at-set_as_dir, node_at-recalculate_owner, placed_entry, entry_nested}
use dftp.Update.Through.{
  there, through, Grows, through-append, through-other, through-first, through-below,
}
use dftp.Update.Stats.{IsFresh, ready_files, files-IsReady, levels-suc, files-FitsIn}
use dftp.Update.Runs.{update_all, all_ready}

there-put_child :
    (n e : TreeNode) (x y : Text) (q : List Text)
    → there (node_at (put_child n x e) (y ∷ q))
      ≡ (if x == y then there (node_at e q) else there (node_at n (y ∷ q)))
unfolding node_at
there-put_child (tree_node s c) e x y q = ground (arith, lookup_child-insert_child c x y e)

entry-there :
    (n : TreeNode) (x : Text) (files : List FileAnnouncement) (y : Text) (q : List Text)
    → there (node_at (placed_entry n x files) (y ∷ q)) ≡ there (node_at n (x ∷ y ∷ q))
unfolding node_at lookup_child
entry-there n x files y q = elim (Option-cases (lookup_child (child_nodes n) x)) [
  | inl e ↦ rw (e, node_at) refl
  | inr (c, e) ↦ rw (e, node_at) refl
]

or_true : (b : Bool) → (b || true) ≡ true
or_true true = refl
or_true false = refl

or_false : (b : Bool) → (b || false) ≡ b
or_false true = refl
or_false false = refl

or_assoc : (a b c : Bool) → ((a || b) || c) ≡ (a || (b || c))
or_assoc true b c = refl
or_assoc false b c = refl

Grows-trans :
    (n n1 n2 : TreeNode) (xs ys : List FileAnnouncement)
    → Grows n n1 xs
    → Grows n1 n2 ys
    → Grows n n2 (xs ++ ys)
Grows-trans n n1 n2 xs ys m1 m2 x q =
    m2 x q
    ∙ ap (λ b. b || through (x ∷ q) ys) (m1 x q)
    ∙ or_assoc (there (node_at n (x ∷ q))) (through (x ∷ q) xs) (through (x ∷ q) ys)
    ∙ ap (λ b. there (node_at n (x ∷ q)) || b) (sym (through-append (x ∷ q) xs ys))

put_there :
    (n e' : TreeNode) (x : Text) (files : List FileAnnouncement)
    → files ≢ []
    → All (StartsWith x) files
    → Grows (placed_entry n x files) e' (entry_nested n x files)
    → (y : Text) (q : List Text) → x ≡ y
    → there (node_at e' q) ≡ (there (node_at n (y ∷ q)) || through (y ∷ q) files)
unfolding node_at
put_there n e' x files ne started m y [] same = sym (
    ap (λ b. there (node_at n (y ∷ [])) || b)
      (ap (λ z. through (z ∷ []) files) (sym same) ∙ through-first x files ne started)
    ∙ or_true (there (node_at n (y ∷ []))))
put_there n e' x files ne started m y (z ∷ q) same =
    m z q
    ∙ ap (λ b. b || through (z ∷ q) (entry_nested n x files)) (entry-there n x files z q)
    ∙ ap (λ b. there (node_at n (x ∷ z ∷ q)) || b)
        (sym (through-below x z q (get_filestat (entry_or_new n x)) files started))
    ∙ ap (λ w. there (node_at n (w ∷ z ∷ q)) || through (w ∷ z ∷ q) files) same

put-Grows :
    (n e' : TreeNode) (x : Text) (files : List FileAnnouncement)
    → files ≢ []
    → All (StartsWith x) files
    → Grows (placed_entry n x files) e' (entry_nested n x files)
    → Grows n (put_child n x e') files
put-Grows n e' x files ne started m y q = elim (text_eq.dec x y) [
  | yes same ↦
      there-put_child n e' x y q
      ∙ ap (λ b. if b then there (node_at e' q) else there (node_at n (y ∷ q)))
          (ap (λ z. x == z) (sym same) ∙ ==_refl x)
      ∙ put_there n e' x files ne started m y q same
  | no other ↦
      there-put_child n e' x y q
      ∙ ap (λ b. if b then there (node_at e' q) else there (node_at n (y ∷ q))) (==_ne x y other)
      ∙ sym (or_false (there (node_at n (y ∷ q))))
      ∙ ap (λ b. there (node_at n (y ∷ q)) || b) (sym (through-other x y q files other started))
]

-- A call that returns such a tree, on announcements of at most `k` parts.
abbrev IsGrowing : ℕ → (TreeNode → List FileAnnouncement → Outcome TreeNode) → Type 0
IsGrowing k go =
    (n : TreeNode) (files : List FileAnnouncement)
    → All IsReady files
    → All (FitsIn k) files
    → (n' : TreeNode) × (go n files ≡ returns n') × Grows n n' files

module _ (k : ℕ) (go : TreeNode → List FileAnnouncement → Outcome TreeNode)
    (makes : IsGrowing k go) where
  nested-Grows :
      (e : TreeNode) (nested : List FileAnnouncement)
      → All IsReady nested
      → All (FitsIn k) nested
      → (e' : TreeNode) × (update_nested go e nested ≡ returns e') × Grows e e' nested
  unfolding update_nested through
  nested-Grows e [] ready fit = (e, refl, λ x q. sym (or_false (there (node_at e (x ∷ q)))))
  nested-Grows e (fa ∷ nested) ready fit =
      let (e', p, m) = makes (set_as_dir e) (fa ∷ nested) ready fit in
      (
        recalculate_owner e',
        rw p,
        λ x q. rw (node_at-recalculate_owner e' x q, ← node_at-set_as_dir e x q) (m x q),
      )

  group-Grows :
      (n : TreeNode) (g : FileGroup)
      → IsGroup g
      → All (FitsIn (suc k)) g.files
      → (n' : TreeNode) × (update_group go n g ≡ returns n') × Grows n n' g.files
  unfolding update_group
  group-Grows n g (ne, started) fit =
      let s = get_filestat (entry_or_new n g.name) in
      let (e', p, m) =
        nested-Grows (placed_entry n g.name g.files) (entry_nested n g.name g.files)
          (nested-IsReady g.name s g.files started)
          (nested-FitsIn g.name k s g.files started fit) in
      (put_child n g.name e', rw p, put-Grows n e' g.name g.files ne started m)

  groups-Grows :
      (n : TreeNode) (gs : List FileGroup)
      → All IsGroup gs
      → All (FitsIn (suc k)) (all_files gs)
      → (n' : TreeNode) × (update_groups go n gs ≡ returns n') × Grows n n' (all_files gs)
  unfolding update_groups through
  groups-Grows n [] named fit = (n, refl, λ x q. sym (or_false (there (node_at n (x ∷ q)))))
  groups-Grows n (g ∷ gs) (group, named) fit =
      let (n1, p1, m1) =
        group-Grows n g group (All-append_left (FitsIn (suc k)) g.files (all_files gs) fit) in
      let (n2, p2, m2) =
        groups-Grows n1 gs named (All-append_right (FitsIn (suc k)) g.files (all_files gs) fit) in
      (n2, rw (p1, p2), Grows-trans n n1 n2 g.files (all_files gs) m1 m2)

update_files-IsGrowing : (fuel : ℕ) → IsGrowing fuel (update_files (suc fuel))
unfolding update_files through group_announcements_by_filepart
update_files-IsGrowing zero n [] ready fit =
    (n, refl, λ x q. sym (or_false (there (node_at n (x ∷ q)))))
update_files-IsGrowing zero n (fa ∷ files) ((x, r, e), ready) (f, fit) =
    absurd (omega (arith, ap (λ (l : List Text). length l) e))
update_files-IsGrowing (suc fuel) n files ready fit =
    let (gs, p, runs) = group_announcements_lem files ready in
    let (n', p', m) =
      groups-Grows fuel (update_files (suc fuel)) (update_files-IsGrowing fuel) n gs runs.named
        (rw runs.covers fit) in
    (n', rw (p, p'), rw runs.covers at m)

-- `Update` returns a tree with the nodes that were there and those that the announcements make.
pub update-Grows :
    (n : TreeNode) (files : List FileAnnouncement)
    → All IsFresh files
    → (n' : TreeNode) × (update n files ≡ returns n') × Grows n n' (ready_files files)
unfolding update
update-Grows n files fresh =
    let ready = files-IsReady files fresh in
    let (k, e) = levels-suc (ready_files files) in
    let (n', p, m) =
      update_files-IsGrowing k n (ready_files files) ready
        (files-FitsIn k (ready_files files) (omega (arith, e))) in
    (n', subst (λ l. update_files l n (ready_files files) ≡ returns n') (sym e) p, m)

pub update_all-Grows :
    (n : TreeNode) (batches : List (List FileAnnouncement))
    → All (All IsFresh) batches
    → (n' : TreeNode) × (update_all n batches ≡ returns n') × Grows n n' (all_ready batches)
unfolding update_all through
update_all-Grows n [] fresh = (n, refl, λ x q. sym (or_false (there (node_at n (x ∷ q)))))
update_all-Grows n (files ∷ batches) (f, fresh) =
    let (n1, p1, m1) = update-Grows n files f in
    let (n2, p2, m2) = update_all-Grows n1 batches fresh in
    (n2, rw p1 p2, Grows-trans n n1 n2 (ready_files files) (all_ready batches) m1 m2)
