-- ===== src/Fat/Paths.antt =====
-- The node that a list of names leads to, and how seeking and writing a child relate to it.
use mathlib.Core.Option
use dftp.Base.{
  List, [], ◌∷◌, Option, none, some, Text, ◌==◌, text_eq, if◌then◌else◌, Outcome, returns, ◌≡◌,
  refl, arith,
}
use dftp.Strings.{trim_prefix, trim_suffix, split, slash}
use dftp.Strings.Laws.{split-cons}
use dftp.Fat.{
  FileStat, TreeNode, ChildNodes, no_children, child, get_filestat, child_nodes, lookup_child,
  insert_child, seek_parts, seek,
}

unfoldable pub node_at : TreeNode → List Text → Option TreeNode
node_at n [] = some n
node_at n (name ∷ rest) = elim (lookup_child (child_nodes n) name) [
  | none ↦ none
  | some entry ↦ node_at entry rest
]

-- The stat at a path, if there is a node.
abbrev pub stat_at : TreeNode → List Text → Option FileStat
stat_at n path = Option.map get_filestat (node_at n path)

pub seek_parts-eq-node_at :
    (n : TreeNode) (name : Text) (rest : List Text)
    → seek_parts n (name ∷ rest) ≡ returns (node_at n (name ∷ rest))
unfolding seek_parts node_at
seek_parts-eq-node_at n name [] = ground arith
seek_parts-eq-node_at n name (next ∷ rest) =
    elim (lookup_child (child_nodes n) name)
      as (λ o.
        elim o as (λ _. Outcome (Option TreeNode)) [
          | none ↦ returns none
          | some entry ↦ seek_parts entry (next ∷ rest)
        ]
        ≡ returns (elim o as (λ _. Option TreeNode) [
          | none ↦ none
          | some entry ↦ node_at entry (next ∷ rest)
        ])) [ none ↦ refl | some e ↦ seek_parts-eq-node_at e next rest ]

-- The names of a path as `Seek` reads it: none for the empty text.
unfoldable pub names_of : Text → List Text
names_of [] = []
names_of (c ∷ path) = split (trim_suffix (trim_prefix (c ∷ path) slash) slash) b'/'

-- `Seek` ends without a panic, whatever the path, and finds the node that the names of the path lead to.
pub seek-eq-node_at :
    (n : TreeNode) (path : Text) → seek n path ≡ returns (node_at n (names_of path))
unfolding seek names_of node_at
seek-eq-node_at n [] = refl
seek-eq-node_at n (c ∷ path) =
    let (x, r, p) = split-cons (trim_suffix (trim_prefix (c ∷ path) slash) slash) b'/' in
    rw p (seek_parts-eq-node_at n x r)

pub lookup_child-insert_child :
    (nodes : ChildNodes) (name key : Text) (e : TreeNode)
    → lookup_child (insert_child nodes name e) key
      ≡ (if name == key then some e else lookup_child nodes key)
unfolding lookup_child insert_child
lookup_child-insert_child no_children name key e = refl
lookup_child-insert_child (child j d rest) name key e =
    ground (arith, lookup_child-insert_child rest name key e)
