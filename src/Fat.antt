-- ===== src/Fat.antt =====
-- src/dftp/dfsfat/fat.go and fileinfo.go: the tree of files, its nodes and how a path is followed.
-- A map's entries are in the order of their insertion, where Go's order is arbitrary, and a nil map
-- is the empty one: reads, `range` and the first write treat the two alike. The nodes' locks are not
-- modelled: an operation here is one that no other interleaves with.
pub mod FileInfo
pub mod Paths
pub mod Names
pub mod Trees
pub mod Listed
use dftp.Base.{
  ℕ, ℤ, pos, Bool, true, false, List, [], ◌∷◌, Option, none, some, Text, codes, ◌==◌, text_eq,
  if◌then◌else◌, Outcome, returns, panics, ltb_ℤ, ◌≡◌, refl,
}
use dftp.Strings.{trim_prefix, trim_suffix, split, slash}

-- `FileStat`
pub record FileStat : Type 0 where
  pub basename : Text
  pub dir : Bool
  pub last_modified : ℤ
  pub last_info_updated : ℤ
  pub size_in_bytes : ℤ
  pub file_mode : ℕ
  pub owner_node : Text

-- The zero value of `FileStat`.
abbrev pub zero_stat : FileStat
zero_stat = record {
  basename = [];
  dir = false;
  last_modified = pos 0;
  last_info_updated = pos 0;
  size_in_bytes = pos 0;
  file_mode = 0;
  owner_node = [];
}

-- `FileStat.IsDeleted`
abbrev pub is_deleted : FileStat → Bool
is_deleted fs = ltb_ℤ fs.size_in_bytes (pos 0)

-- `MultipleNodeOwners`
abbrev pub multiple_node_owners : Text
multiple_node_owners = codes "(multiple)"

-- `TreeNode` and the map of its children.
mutual
  pub data TreeNode : Type 0 where
    tree_node : FileStat → ChildNodes → TreeNode

  pub data ChildNodes : Type 0 where
    no_children : ChildNodes
    child : Text → TreeNode → ChildNodes → ChildNodes

-- `TreeNode.GetFilestat`
abbrev pub get_filestat : TreeNode → FileStat
get_filestat (tree_node stat nodes) = stat

abbrev pub child_nodes : TreeNode → ChildNodes
child_nodes (tree_node stat nodes) = nodes

-- `TreeNode.IsDir`
abbrev pub is_dir : TreeNode → Bool
is_dir n = (get_filestat n).dir

-- `NewRootNode`
abbrev pub new_root_node : TreeNode
new_root_node = tree_node (record zero_stat { dir = true }) no_children

-- `TreeNodeReadonly`: the stat and a copy of the map, whose nodes are shared with the tree.
pub record TreeNodeReadonly : Type 0 where
  pub stat : FileStat
  pub children : ChildNodes

-- `TreeNode.GetReadonly`
abbrev pub get_readonly : TreeNode → TreeNodeReadonly
get_readonly (tree_node s cs) = record { stat = s; children = cs }

-- `n.childNodes[name]`
unfoldable pub lookup_child : ChildNodes → Text → Option TreeNode
lookup_child no_children name = none
lookup_child (child key e rest) name = if key == name then some e else lookup_child rest name

-- `n.childNodes[name] = entry`
unfoldable pub insert_child : ChildNodes → Text → TreeNode → ChildNodes
insert_child no_children name entry = child name entry no_children
insert_child (child key e rest) name entry =
    if key == name then child key entry rest else child key e (insert_child rest name entry)

-- `TreeNode.seek`
unfoldable pub seek_parts : TreeNode → List Text → Outcome (Option TreeNode)
seek_parts n [] = panics
seek_parts n (part0 ∷ []) = returns (lookup_child (child_nodes n) part0)
seek_parts n (part0 ∷ next ∷ rest) = elim (lookup_child (child_nodes n) part0) [
  | none ↦ returns none
  | some entry ↦ seek_parts entry (next ∷ rest)
]

-- `TreeNode.Seek`
unfoldable pub seek : TreeNode → Text → Outcome (Option TreeNode)
unfolding seek_parts
seek n [] = returns (some n)
seek n (c ∷ path) = seek_parts n (split (trim_suffix (trim_prefix (c ∷ path) slash) slash) b'/')
