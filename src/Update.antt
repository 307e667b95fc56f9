-- ===== src/Update.antt =====
-- src/dftp/dfsfat/update.go: the announcements of files and how the tree takes them in.
-- A pointer to an announcement is the announcement: `update` is the last to read what it changes in
-- one. The recursion of `update` takes fuel, one for each level of the tree that it enters.
pub mod Groups
pub mod Target
pub mod Placed
pub mod Entries
pub mod Stats
pub mod Merge
pub mod Sets
pub mod Newest
pub mod Runs
pub mod Owners
pub mod Alone
pub mod Trees
pub mod Through
pub mod Shape
use dftp.Base.{
  ℕ, zero, suc, ◌+◌, ℤ, pos, negsuc, Bool, true, false, not, ◌&&◌, List, [], ◌∷◌, ◌++◌, map, Option,
  none, some, Text, ◌==◌, text_eq, if◌then◌else◌, Outcome, returns, panics, out_of_fuel, ◌>>=◌,
  ltb_ℤ, length, ◌≡◌, refl,
}
use dftp.Strings.{trim_prefix, split, slash}
use dftp.Fat.{
  FileStat, zero_stat, multiple_node_owners, TreeNode, tree_node, ChildNodes, no_children, child,
  get_filestat, child_nodes, lookup_child, insert_child,
}

-- `FileAnnouncement`; the slice `fullNameParts` is nil until `ensureInit`.
pub record FileAnnouncement : Type 0 where
  pub full_name : Text
  pub stat : FileStat
  pub full_name_parts : Option (List Text)
  pub deletion : Bool

-- The elements of a slice: none of a nil one.
abbrev pub elements : Option (List Text) → List Text
elements none = []
elements (some parts) = parts

abbrev pub parts : FileAnnouncement → List Text
parts fa = elements fa.full_name_parts

-- `ensureInit`
unfoldable pub ensure_init : FileAnnouncement → FileAnnouncement
ensure_init fa = record fa {
  full_name_parts = elim fa.full_name_parts [
    | none ↦ some (split (trim_prefix fa.full_name slash) b'/')
    | some ps ↦ some ps
  ];
  stat = if fa.deletion then record fa.stat { size_in_bytes = negsuc 0 } else fa.stat;
}

abbrev pub first_part : List Text → Outcome Text
first_part [] = panics
first_part (part ∷ rest) = returns part

-- `namePart`
abbrev pub name_part : FileAnnouncement → Outcome Text
name_part fa = first_part (parts fa)

abbrev pub is_single : List Text → Bool
is_single (part ∷ []) = true
is_single _ = false

-- `isLeaf`
abbrev pub is_leaf : FileAnnouncement → Bool
is_leaf fa = is_single (parts fa)

abbrev pub rest_parts : List Text → List Text
rest_parts [] = []
rest_parts (part ∷ rest) = rest

-- `nameShift`, called on announcements of two parts or more only
abbrev pub name_shift : FileAnnouncement → FileAnnouncement
name_shift fa = record fa { full_name_parts = some (rest_parts (parts fa)) }

-- `fileGroup`
pub record FileGroup : Type 0 where
  pub name : Text
  pub files : List FileAnnouncement

abbrev pub is_empty : List FileAnnouncement → Bool
is_empty [] = true
is_empty (fa ∷ files) = false

abbrev pub empty_group : FileGroup
empty_group = record { name = []; files = [] }

-- The loop of `groupAnnouncementsByFilepart`, from `prevName` and `prevGroup`: the groups that it
-- goes on to append.
unfoldable pub group_loop : Text → FileGroup → List FileAnnouncement → Outcome (List FileGroup)
group_loop prev_name prev_group [] =
    returns (if is_empty prev_group.files then [] else prev_group ∷ [])
group_loop prev_name prev_group (fa ∷ files) = name_part fa >>= λ cur_name.
    let finished = not (cur_name == prev_name) && not (is_empty prev_group.files) in
    let group = if finished then empty_group else prev_group in
    group_loop cur_name (record { name = cur_name; files = group.files ++ fa ∷ [] }) files
    >>= λ groups. returns (if finished then prev_group ∷ groups else groups)

-- `groupAnnouncementsByFilepart`
unfoldable pub group_announcements_by_filepart : List FileAnnouncement → Outcome (List FileGroup)
unfolding group_loop
group_announcements_by_filepart = group_loop [] empty_group

-- What `update` writes over the stat of the node that an announcement ends at.
unfoldable pub apply_stat : FileStat → FileAnnouncement → FileStat
apply_stat old fa =
    if ltb_ℤ old.last_info_updated fa.stat.last_info_updated
    then if fa.stat.dir && not (old.owner_node == []) && not (old.owner_node == fa.stat.owner_node)
      then record fa.stat { owner_node = multiple_node_owners }
      else fa.stat
    else old

-- Whether an announcement is handed on to the level below.
abbrev pub goes_down : FileAnnouncement → Bool
goes_down fa = not (is_leaf fa) && not fa.deletion

-- The loop over a group's announcements: the stat of the entry after it, and `nestedFiles`.
unfoldable pub place_files : FileStat → List FileAnnouncement → FileStat × List FileAnnouncement
unfolding apply_stat
place_files stat [] = (stat, [])
place_files stat (fa ∷ files) =
    let (stat', nested) = place_files (if goes_down fa then stat else apply_stat stat fa) files in
    (stat', if goes_down fa then name_shift fa ∷ nested else nested)

-- `setAsDir`
unfoldable pub set_as_dir : TreeNode → TreeNode
set_as_dir (tree_node stat nodes) =
    tree_node (record stat { dir = true; size_in_bytes = pos 0 }) nodes

-- The loop of `recalculateOwner`, from `owner`
unfoldable pub owner_loop : Text → ChildNodes → Text
owner_loop owner no_children = owner
owner_loop owner (child name e rest) =
    owner_loop
      (if owner == []
        then (get_filestat e).owner_node
        else if not (owner == (get_filestat e).owner_node)
        then multiple_node_owners
        else owner)
      rest

-- `recalculateOwner`
unfoldable pub recalculate_owner : TreeNode → TreeNode
unfolding owner_loop
recalculate_owner (tree_node stat nodes) =
    if not stat.dir
    then tree_node stat nodes
    else tree_node (record stat { owner_node = owner_loop [] nodes }) nodes

-- The entry of a name, or the node that `update` makes for it.
abbrev pub entry_or_new : TreeNode → Text → TreeNode
entry_or_new n name = elim (lookup_child (child_nodes n) name) [
  | none ↦ tree_node (record zero_stat { basename = name }) no_children
  | some entry ↦ entry
]

abbrev pub put_child : TreeNode → Text → TreeNode → TreeNode
put_child (tree_node stat nodes) name entry = tree_node stat (insert_child nodes name entry)

-- One round of the loop of `update`, whose call of itself is `go`.
module _ (go : TreeNode → List FileAnnouncement → Outcome TreeNode) where
  unfoldable pub update_nested : TreeNode → List FileAnnouncement → Outcome TreeNode
  unfolding set_as_dir recalculate_owner
  update_nested entry [] = returns entry
  update_nested entry (fa ∷ nested) =
      go (set_as_dir entry) (fa ∷ nested) >>= λ entry'. returns (recalculate_owner entry')

  unfoldable pub update_group : TreeNode → FileGroup → Outcome TreeNode
  unfolding update_nested place_files
  update_group n group =
      let entry = entry_or_new n group.name in
      let (stat, nested) = place_files (get_filestat entry) group.files in
      update_nested (tree_node stat (child_nodes entry)) nested >>= λ entry'.
      returns (put_child n group.name entry')

  unfoldable pub update_groups : TreeNode → List FileGroup → Outcome TreeNode
  unfolding update_group
  update_groups n [] = returns n
  update_groups n (group ∷ groups) = update_group n group >>= λ n'. update_groups n' groups

-- `update`
unfoldable pub update_files : ℕ → TreeNode → List FileAnnouncement → Outcome TreeNode
unfolding update_groups group_announcements_by_filepart
update_files zero n files = out_of_fuel
update_files (suc fuel) n files =
    group_announcements_by_filepart files >>= update_groups (update_files fuel) n

-- More levels than any of the announcements has.
abbrev pub levels : List FileAnnouncement → ℕ
levels [] = 1
levels (fa ∷ files) = length (parts fa) + levels files

-- `Update`
unfoldable pub update : TreeNode → List FileAnnouncement → Outcome TreeNode
unfolding update_files ensure_init
update n files = let ready = map ensure_init files in update_files (levels ready) n ready
