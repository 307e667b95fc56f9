-- ===== src/Update/Trees.antt =====
-- An update keeps the names of the children of each directory different.
use dftp.Base.{
  ℕ, zero, suc, List, [], ◌∷◌, map, Option, none, some, Text, text_eq, ◌≡◌, refl, arith, Outcome,
  returns, panics, out_of_fuel, ◌>>=◌, subst,
}
use dftp.Fat.{
  zero_stat, TreeNode, tree_node, ChildNodes, no_children, child_nodes, get_filestat, lookup_child,
  new_root_node,
}
use dftp.Fat.Trees.{IsTree, IsForest, lookup_child-IsTree, insert_child-IsForest}
use dftp.Update.{
  FileAnnouncement, FileGroup, set_as_dir, recalculate_owner, entry_or_new, put_child, place_files,
  update_nested, update_group, update_groups, update_files, update, ensure_init, levels,
  group_announcements_by_filepart,
}
use dftp.Update.Runs.{update_all}

-- If the call returns, it returns a tree of this kind.
abbrev Makes : Outcome TreeNode → Type 0
Makes (returns n) = IsTree n
Makes panics = Unit
Makes out_of_fuel = Unit

bind-Makes :
    {A : Type 0} (m : Outcome A) (f : A → Outcome TreeNode)
    → ((a : A) → m ≡ returns a → Makes (f a))
    → Makes (m >>= f)
bind-Makes (returns a) f h = h a refl
bind-Makes panics f h = tt
bind-Makes out_of_fuel f h = tt

set_as_dir-IsTree : (n : TreeNode) → IsTree n → IsTree (set_as_dir n)
unfolding set_as_dir IsTree
set_as_dir-IsTree (tree_node s c) h = h

recalculate_owner-IsTree : (n : TreeNode) → IsTree n → IsTree (recalculate_owner n)
unfolding recalculate_owner IsTree
recalculate_owner-IsTree (tree_node s c) h = ground (arith, h)

children-IsForest : (n : TreeNode) → IsTree n → IsForest (child_nodes n)
unfolding IsTree
children-IsForest (tree_node s c) h = h

found-IsForest :
    (c : ChildNodes) (name : Text) (o : Option TreeNode)
    → IsForest c
    → lookup_child c name ≡ o
    → IsForest (
        child_nodes (elim o as (λ _. TreeNode) [
          | none ↦ tree_node (record zero_stat { basename = name }) no_children
          | some entry ↦ entry
        ]))
unfolding IsForest
found-IsForest c name none h e = tt
found-IsForest c name (some m) h e = children-IsForest m (lookup_child-IsTree c name m h e)

entry-IsForest :
    (n : TreeNode) (name : Text) → IsTree n → IsForest (child_nodes (entry_or_new n name))
entry-IsForest n name h =
    found-IsForest (child_nodes n) name (lookup_child (child_nodes n) name) (children-IsForest n h)
      refl

module _ (go : TreeNode → List FileAnnouncement → Outcome TreeNode)
    (go-IsTree : (n : TreeNode) (files : List FileAnnouncement)
      → IsTree n
      → Makes (go n files)) where
  made :
      (n m : TreeNode) (files : List FileAnnouncement)
      → IsTree n
      → go n files ≡ returns m
      → IsTree m
  made n m files h e = subst Makes e (go-IsTree n files h)

  nested-IsTree :
      (entry : TreeNode) (nested : List FileAnnouncement)
      → IsTree entry
      → Makes (update_nested go entry nested)
  unfolding update_nested
  nested-IsTree entry [] h = h
  nested-IsTree entry (fa ∷ nested) h = bind-Makes (go (set_as_dir entry) (fa ∷ nested)) _ λ m e.
      recalculate_owner-IsTree m
        (made (set_as_dir entry) m (fa ∷ nested) (set_as_dir-IsTree entry h) e)

  put_child-IsTree :
      (n : TreeNode) (name : Text) (e : TreeNode)
      → IsTree n
      → IsTree e
      → IsTree (put_child n name e)
  unfolding IsTree
  put_child-IsTree (tree_node s c) name e h t = insert_child-IsForest c name e h t

  group-IsTree : (n : TreeNode) (g : FileGroup) → IsTree n → Makes (update_group go n g)
  unfolding update_group IsTree
  group-IsTree n g h =
      let entry = entry_or_new n g.name in
      let placed = place_files (get_filestat entry) g.files in
      let below = tree_node (placed.0) (child_nodes entry) in
      let nested = placed.1 in
      bind-Makes (update_nested go below nested) _ λ m e.
        put_child-IsTree n g.name m h
          (subst Makes e (nested-IsTree below nested (entry-IsForest n g.name h)))

  groups-IsTree : (n : TreeNode) (gs : List FileGroup) → IsTree n → Makes (update_groups go n gs)
  unfolding update_groups
  groups-IsTree n [] h = h
  groups-IsTree n (g ∷ gs) h =
      bind-Makes (update_group go n g) _
        λ m e. groups-IsTree m gs (subst Makes e (group-IsTree n g h))

update_files-IsTree :
    (fuel : ℕ) (n : TreeNode) (files : List FileAnnouncement)
    → IsTree n
    → Makes (update_files fuel n files)
unfolding update_files
update_files-IsTree zero n files h = tt
update_files-IsTree (suc fuel) n files h =
    bind-Makes (group_announcements_by_filepart files) _
      λ gs e. groups-IsTree (update_files fuel) (update_files-IsTree fuel) n gs h

update-Makes : (n : TreeNode) (files : List FileAnnouncement) → IsTree n → Makes (update n files)
unfolding update
update-Makes n files h =
    update_files-IsTree (levels (map ensure_init files)) n (map ensure_init files) h

pub update-IsTree :
    (n : TreeNode) (files : List FileAnnouncement) {n' : TreeNode}
    → IsTree n
    → update n files ≡ returns n'
    → IsTree n'
update-IsTree n files h e = subst Makes e (update-Makes n files h)

all-Makes :
    (n : TreeNode) (batches : List (List FileAnnouncement))
    → IsTree n
    → Makes (update_all n batches)
unfolding update_all
all-Makes n [] h = h
all-Makes n (files ∷ batches) h =
    bind-Makes (update n files) _ λ m e. all-Makes m batches (update-IsTree n files h e)

-- A tree that updates have made from an empty one.
pub update_all-IsTree :
    (batches : List (List FileAnnouncement)) {n' : TreeNode}
    → update_all new_root_node batches ≡ returns n'
    → IsTree n'
unfolding IsTree
update_all-IsTree batches e = subst Makes e (all-Makes new_root_node batches tt)
