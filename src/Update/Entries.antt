-- ===== src/Update/Entries.antt =====
-- What a group of announcements leaves at the paths through its entry.
use dftp.Base.{
  List, [], ◌∷◌, Option, none, some, Text, ◌==◌, text_eq, path_eq, if◌then◌else◌, ◌≡◌, ◌≢◌, refl,
  arith, Option-cases, inl, inr, All, ap, ◌∙◌, sym, ==_refl, ==_ne, subst,
}
use dftp.Fat.{FileStat, TreeNode, tree_node, child_nodes, get_filestat, lookup_child}
use dftp.Fat.Paths.{node_at, stat_at, lookup_child-insert_child}
use dftp.Update.{
  FileAnnouncement, place_files, set_as_dir, recalculate_owner, entry_or_new, put_child,
}
use dftp.Update.Groups.{StartsWith}
use dftp.Update.Target.{stat_or_new, take_in, StopsAt, start_cases}
use dftp.Update.Placed.{nested_of, place_leaves, place_below, nested-StopsAt}

-- At every path (other than the root's) below which nothing is announced, the tree `n'` has the stat
-- that taking in the announcements for that path leaves.
abbrev pub TakesIn : TreeNode → TreeNode → List FileAnnouncement → Type 0
TakesIn n n' files =
    (x : Text) (q : List Text)
    → All (StopsAt (x ∷ q)) files
    → stat_at n' (x ∷ q) ≡ take_in (x ∷ q) (stat_at n (x ∷ q)) files

-- Changing a node's stat leaves what is below it.
pub node_at-set_as_dir :
    (n : TreeNode) (x : Text) (q : List Text) → node_at (set_as_dir n) (x ∷ q) ≡ node_at n (x ∷ q)
unfolding node_at set_as_dir
node_at-set_as_dir (tree_node s c) x q = refl

pub node_at-recalculate_owner :
    (n : TreeNode) (x : Text) (q : List Text)
    → node_at (recalculate_owner n) (x ∷ q) ≡ node_at n (x ∷ q)
unfolding node_at recalculate_owner
node_at-recalculate_owner (tree_node s c) x q = ground arith

-- The path from a child.
stat_at-cons :
    (n e : TreeNode) (x : Text) (q : List Text)
    → lookup_child (child_nodes n) x ≡ some e
    → stat_at n (x ∷ q) ≡ stat_at e q
unfolding node_at
stat_at-cons n e x q h = rw (h, node_at)

stat_at-missing :
    (n : TreeNode) (x : Text) (q : List Text)
    → lookup_child (child_nodes n) x ≡ none
    → stat_at n (x ∷ q) ≡ none
unfolding node_at
stat_at-missing n x q h = rw (h, node_at)

stat_at-put_child :
    (n e : TreeNode) (x y : Text) (q : List Text)
    → stat_at (put_child n x e) (y ∷ q) ≡ (if x == y then stat_at e q else stat_at n (y ∷ q))
unfolding node_at
stat_at-put_child (tree_node s c) e x y q = ground (arith, lookup_child-insert_child c x y e)

entry-stat :
    (n : TreeNode) (x : Text)
    → stat_or_new (x ∷ []) (stat_at n (x ∷ [])) ≡ get_filestat (entry_or_new n x)
unfolding node_at
entry-stat n x = ground arith

entry-below :
    (n : TreeNode) (x y : Text) (q : List Text)
    → stat_at (entry_or_new n x) (y ∷ q) ≡ stat_at n (x ∷ y ∷ q)
unfolding node_at lookup_child
entry-below n x y q = elim (Option-cases (lookup_child (child_nodes n) x)) [
  | inl e ↦ rw (e, node_at)
  | inr (c, e) ↦ rw (e, node_at)
]

take_in-other :
    (x y : Text) (q : List Text) (o : Option FileStat) (files : List FileAnnouncement)
    → x ≢ y
    → All (StartsWith x) files
    → take_in (y ∷ q) o files ≡ o
unfolding take_in
take_in-other x y q o [] ne started = refl
take_in-other x y q o (fa ∷ files) ne ((r, e), started) =
    ground (arith, take_in-other x y q o files ne started)

take_in-new :
    (x : Text) (o : Option FileStat) (files : List FileAnnouncement)
    → files ≢ []
    → All (StartsWith x) files
    → All (StopsAt (x ∷ [])) files
    → take_in (x ∷ []) o files ≡ take_in (x ∷ []) (some (stat_or_new (x ∷ []) o)) files
unfolding take_in
take_in-new x (some s) files ne started stops = refl
take_in-new x none [] ne started stops = absurd (ne refl)
take_in-new x none (fa ∷ files) ne (start, started) (stop, stops) = elim (start_cases x fa start) [
  | inl (d, t) ↦ rw (t, ==_refl)
  | inr (y, r, d, t, _, _, _) ↦ absurd (stop y r t)
]

-- The entry of a group after the loop over its announcements.
abbrev pub placed_entry : TreeNode → Text → List FileAnnouncement → TreeNode
placed_entry n x files =
    tree_node (place_files (get_filestat (entry_or_new n x)) files).0
      (child_nodes (entry_or_new n x))

abbrev pub entry_nested : TreeNode → Text → List FileAnnouncement → List FileAnnouncement
entry_nested n x files = nested_of (get_filestat (entry_or_new n x)) files

placed_entry-below :
    (n : TreeNode) (x y : Text) (q : List Text) (files : List FileAnnouncement)
    → stat_at (placed_entry n x files) (y ∷ q) ≡ stat_at n (x ∷ y ∷ q)
unfolding node_at
placed_entry-below n x y q files = entry-below n x y q

entry_correct :
    (n e' : TreeNode) (x : Text) (q : List Text) (files : List FileAnnouncement)
    → files ≢ []
    → All (StartsWith x) files
    → TakesIn (placed_entry n x files) e' (entry_nested n x files)
    → (entry_nested n x files ≡ [] → e' ≡ placed_entry n x files)
    → All (StopsAt (x ∷ q)) files
    → stat_at e' q ≡ take_in (x ∷ q) (stat_at n (x ∷ q)) files
unfolding node_at
entry_correct n e' x [] files ne started t same stops =
    let (empty, v) = place_leaves x (get_filestat (entry_or_new n x)) files started stops in
    rw (same empty, take_in-new x (stat_at n (x ∷ [])) files ne started stops, entry-stat n x, v)
entry_correct n e' x (y ∷ q) files ne started t same stops =
    let s = get_filestat (entry_or_new n x) in
    t y q (nested-StopsAt x y q s files started stops)
    ∙ ap (λ o. take_in (y ∷ q) o (entry_nested n x files)) (placed_entry-below n x y q files)
    ∙ sym (place_below x y q (stat_at n (x ∷ y ∷ q)) s files started)

pub put_correct :
    (n e' : TreeNode) (x : Text) (files : List FileAnnouncement)
    → files ≢ []
    → All (StartsWith x) files
    → TakesIn (placed_entry n x files) e' (entry_nested n x files)
    → (entry_nested n x files ≡ [] → e' ≡ placed_entry n x files)
    → TakesIn n (put_child n x e') files
put_correct n e' x files ne started t same y q stops = elim (text_eq.dec x y) [
  | yes m ↦
      subst
        (λ z.
          All (StopsAt (z ∷ q)) files
          → stat_at (put_child n x e') (z ∷ q) ≡ take_in (z ∷ q) (stat_at n (z ∷ q)) files)
        m
        (λ st. rw (stat_at-put_child, ==_refl) (entry_correct n e' x q files ne started t same st))
        stops
  | no m ↦
      rw (stat_at-put_child n e' x y q, ==_ne x y m)
        (sym (take_in-other x y q (stat_at n (y ∷ q)) files m started))
]
