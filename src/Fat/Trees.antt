-- ===== src/Fat/Trees.antt =====
-- Trees in which no directory has two children of one name, as Go's maps have it.
use dftp.Base.{none, some, Text, text_eq, ◌≡◌, refl, ==_refl, ==_ne, subst, sym, ◌∙◌}
use dftp.Fat.{TreeNode, tree_node, ChildNodes, no_children, child, lookup_child, insert_child}
use dftp.Fat.Paths.{lookup_child-insert_child}

-- The names of the children of each directory differ.
unfoldable mutual
  pub IsTree : TreeNode → Type 0
  IsTree (tree_node stat nodes) = IsForest nodes

  pub IsForest : ChildNodes → Type 0
  IsForest no_children = Unit
  IsForest (child name e rest) = (lookup_child rest name ≡ none) × IsTree e × IsForest rest

some-injective : (d e : TreeNode) → some d ≡ some e → d ≡ e
some-injective d e p = cc

pub lookup_child-IsTree :
    (nodes : ChildNodes) (name : Text) (e : TreeNode)
    → IsForest nodes
    → lookup_child nodes name ≡ some e
    → IsTree e
unfolding lookup_child IsForest
lookup_child-IsTree no_children name e h p = cc
lookup_child-IsTree (child key d rest) name e (new, tree, forest) p = elim (text_eq.dec key name) [
  | yes same ↦
      let q : some d ≡ some e = rw (same, ==_refl) at p in subst IsTree (some-injective d e q) tree
  | no ne ↦ lookup_child-IsTree rest name e forest (rw (==_ne key name ne) at p)
]

pub insert_child-IsForest :
    (nodes : ChildNodes) (name : Text) (e : TreeNode)
    → IsForest nodes
    → IsTree e
    → IsForest (insert_child nodes name e)
unfolding lookup_child insert_child IsForest
insert_child-IsForest no_children name e h t = (refl, t, tt)
insert_child-IsForest (child key d rest) name e (new, tree, forest) t =
    elim (text_eq.dec key name) [
      | yes same ↦ rw (same, ==_refl) (subst (λ k. lookup_child rest k ≡ none) same new, t, forest)
      | no ne ↦ rw (==_ne key name ne) (
        lookup_child-insert_child rest name key e ∙ rw (==_ne name key (λ q. ne (sym q))) new,
        tree,
        insert_child-IsForest rest name e forest t,
      )
    ]
