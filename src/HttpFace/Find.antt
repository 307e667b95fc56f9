-- ===== src/HttpFace/Find.antt =====
-- The listing of the whole tree.
use dftp.Base.{
  List, [], ◌∷◌, ◌++◌, map, Text, text_eq, path_eq, ◌≡◌, ◌≢◌, refl, All, All-append, ap, ◌∙◌, sym,
  ==_refl, ==_ne, append_assoc, append-nil,
}
use dftp.Strings.{join, slash}
use dftp.FilePath.{join_path}
use dftp.FilePath.Elements.{IsElement, clean-join, join_path-join, join_ne}
use dftp.Fat.{TreeNode, tree_node, ChildNodes, no_children, child, child_nodes}
use dftp.Fat.Trees.{IsTree}
use dftp.Fat.Listed.{node_paths, paths_in, ListsOnce, paths_once}
use dftp.HttpFace.{walk, walk_children, find_lines, find}

-- No name in the tree is empty, `.` or `..`, or holds a slash.
unfoldable mutual
  pub HasElements : TreeNode → Type 0
  HasElements (tree_node stat nodes) = AllElements nodes

  pub AllElements : ChildNodes → Type 0
  AllElements no_children = Unit
  AllElements (child name e rest) = IsElement name × HasElements e × AllElements rest

abbrev joined : List Text → List (List Text) → List Text
joined bs ps = map (λ p. join (bs ++ p) slash) ps

joined-append :
    (bs : List Text) (xs ys : List (List Text))
    → joined bs (xs ++ ys) ≡ joined bs xs ++ joined bs ys
joined-append bs [] ys = refl
joined-append bs (x ∷ xs) ys = ap (λ r. join (bs ++ x) slash ∷ r) (joined-append bs xs ys)

joined-below :
    (bs : List Text) (name : Text) (ps : List (List Text))
    → joined bs (map (λ p. name ∷ p) ps) ≡ joined (bs ++ name ∷ []) ps
joined-below bs name [] = refl
joined-below bs name (p ∷ ps) =
    rw (append_assoc bs (name ∷ []) p)
      (ap (λ r. join (bs ++ name ∷ p) slash ∷ r) (joined-below bs name ps))

-- The path of an entry, as the walk makes it from the path of its directory.
entry_path :
    (bs : List Text) (name : Text)
    → All IsElement bs
    → IsElement name
    → join_path (join bs slash) name ≡ join (bs ++ name ∷ []) slash
unfolding join_path join
entry_path [] name hb i =
    rw (==_refl {A = Text} [], ==_ne name [] i.0.0) (clean-join name [] (i, tt))
entry_path (b ∷ bs) name hb i = join_path-join b bs name [] hb (i, tt)

entry_path-ne :
    (bs : List Text) (name : Text)
    → All IsElement (bs ++ name ∷ [])
    → join (bs ++ name ∷ []) slash ≢ []
entry_path-ne [] name h = join_ne name [] h
entry_path-ne (b ∷ bs) name h = join_ne b (bs ++ name ∷ []) h

mutual
  unfolding node_paths paths_in walk HasElements AllElements

  walk-joined :
      (n : TreeNode) (bs : List Text) (name : Text)
      → HasElements n
      → All IsElement (bs ++ name ∷ [])
      → walk n (join (bs ++ name ∷ []) slash) ≡ joined (bs ++ name ∷ []) (node_paths n)
  walk-joined (tree_node s nodes) bs name h hb =
      rw
        (
          ==_ne (join (bs ++ name ∷ []) slash) [] (entry_path-ne bs name hb),
          append-nil (bs ++ name ∷ []),
        )
        (ap (λ r. join (bs ++ name ∷ []) slash ∷ r)
          (walk_children-joined nodes (bs ++ name ∷ []) h hb))

  walk_children-joined :
      (nodes : ChildNodes) (bs : List Text)
      → AllElements nodes
      → All IsElement bs
      → walk_children nodes (join bs slash) ≡ joined bs (paths_in nodes)
  walk_children-joined no_children bs h hb = refl
  walk_children-joined (child name e rest) bs (i, tree, forest) hb =
      ap (λ t. walk e t ++ walk_children rest (join bs slash)) (entry_path bs name hb i)
      ∙ ap (λ r. r ++ walk_children rest (join bs slash))
          (walk-joined e bs name tree (All-append IsElement bs (name ∷ []) hb (i, tt)))
      ∙ ap (λ r. joined (bs ++ name ∷ []) (node_paths e) ++ r)
          (walk_children-joined rest bs forest hb)
      ∙ ap (λ r. r ++ joined bs (paths_in rest)) (sym (joined-below bs name (node_paths e)))
      ∙ sym (joined-append bs (map (λ p. name ∷ p) (node_paths e)) (paths_in rest))

walk_root : (n : TreeNode) → HasElements n → walk n [] ≡ joined [] (paths_in (child_nodes n))
unfolding walk HasElements join text_eq
walk_root (tree_node s nodes) h = walk_children-joined nodes [] h tt

-- If the names of the children of each directory differ, and no name in the tree is empty, `.` or
-- `..`, or holds a slash, then `Find` writes a line for each node but the root, directories and deleted
-- files among them, exactly once and nothing else: the names that lead to the node, joined by slashes,
-- after a slash.
pub find_lem :
    (n : TreeNode)
    → IsTree n
    → HasElements n
    → (ps : List (List Text)) × (find n ≡ find_lines (map (λ p. join p slash) ps)) × ListsOnce n ps
unfolding find
find_lem n h i = (paths_in (child_nodes n), ap find_lines (walk_root n i), paths_once n h)
