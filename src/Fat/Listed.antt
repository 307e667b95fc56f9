-- ===== src/Fat/Listed.antt =====
-- The names that lead to the nodes of a tree: each node has its own, once.
use dftp.Base.{
  ℕ, ◌+◌, List, [], ◌∷◌, ◌++◌, map, Option, none, some, Text, ◌==◌, text_eq, path_eq, if◌then◌else◌,
  ◌≡◌, ◌≢◌, refl, arith, subst, ==_refl, ==_ne,
}
use dftp.Fat.{TreeNode, tree_node, ChildNodes, no_children, child, child_nodes, lookup_child}
use dftp.Fat.Paths.{node_at}
use dftp.Fat.Trees.{IsTree, IsForest}

-- The names that lead to each node of a tree, in the order of the walk.
unfoldable mutual
  pub node_paths : TreeNode → List (List Text)
  node_paths (tree_node stat nodes) = [] ∷ paths_in nodes

  pub paths_in : ChildNodes → List (List Text)
  paths_in no_children = []
  paths_in (child name e rest) = map (λ p. name ∷ p) (node_paths e) ++ paths_in rest

unfoldable pub occurrences : List Text → List (List Text) → ℕ
occurrences p [] = 0
occurrences p (a ∷ ps) = (if a == p then 1 else 0) + occurrences p ps

abbrev pub found : Option TreeNode → ℕ
found none = 0
found (some n) = 1

pub occurrences-append :
    (p : List Text) (xs ys : List (List Text))
    → occurrences p (xs ++ ys) ≡ occurrences p xs + occurrences p ys
unfolding occurrences
occurrences-append p [] ys = omega arith
occurrences-append p (x ∷ xs) ys = omega (arith, occurrences-append p xs ys)

occurrences-root : (x : Text) (ps : List (List Text)) → occurrences [] (map (λ p. x ∷ p) ps) ≡ 0
unfolding occurrences
occurrences-root x [] = refl
occurrences-root x (p ∷ ps) = ground (arith, ==_ne (x ∷ p) [] (λ e. cc), occurrences-root x ps)

tail_ne : (x : Text) (p q : List Text) → p ≢ q → x ∷ p ≢ x ∷ q
tail_ne x p q ne e = ne (cc)

head_ne : (x y : Text) (p q : List Text) → x ≢ y → x ∷ p ≢ y ∷ q
head_ne x y p q ne e = ne (cc)

occurrences-same :
    (x : Text) (q : List Text) (ps : List (List Text))
    → occurrences (x ∷ q) (map (λ p. x ∷ p) ps) ≡ occurrences q ps
unfolding occurrences
occurrences-same x q [] = refl
occurrences-same x q (p ∷ ps) = elim (path_eq.dec p q) [
  | yes e ↦ ground (arith, e, occurrences-same x q ps)
  | no ne ↦
      ground
        (arith, ==_ne p q ne, ==_ne (x ∷ p) (x ∷ q) (tail_ne x p q ne), occurrences-same x q ps)
]

occurrences-other :
    (x y : Text) (q : List Text) (ps : List (List Text))
    → x ≢ y
    → occurrences (y ∷ q) (map (λ p. x ∷ p) ps) ≡ 0
unfolding occurrences
occurrences-other x y q [] ne = refl
occurrences-other x y q (p ∷ ps) ne =
    ground (arith, ==_ne (x ∷ p) (y ∷ q) (head_ne x y p q ne), occurrences-other x y q ps ne)

-- The node that names lead to from a map of children.
abbrev pub follow : ChildNodes → Text → List Text → Option TreeNode
follow nodes x q = elim (lookup_child nodes x) [ none ↦ none | some e ↦ node_at e q ]

paths_in-nil : (nodes : ChildNodes) → occurrences [] (paths_in nodes) ≡ 0
unfolding occurrences paths_in
paths_in-nil no_children = refl
paths_in-nil (child name e rest) = omega (
  arith,
  occurrences-append [] (map (λ p. name ∷ p) (node_paths e)) (paths_in rest),
  occurrences-root name (node_paths e),
  paths_in-nil rest,
)

mutual
  unfolding node_paths paths_in occurrences node_at lookup_child IsTree IsForest

  node_once :
      (n : TreeNode) (p : List Text) → IsTree n → occurrences p (node_paths n) ≡ found (node_at n p)
  node_once (tree_node s nodes) [] h =
      ground (arith, ==_refl {A = List Text} [], paths_in-nil nodes)
  node_once (tree_node s nodes) (x ∷ q) h =
      ground (arith, ==_ne [] (x ∷ q) (λ e. cc), forest_once nodes x q h)

  forest_once :
      (nodes : ChildNodes) (x : Text) (q : List Text)
      → IsForest nodes
      → occurrences (x ∷ q) (paths_in nodes) ≡ found (follow nodes x q)
  forest_once no_children x q h = refl
  forest_once (child name e rest) x q (new, tree, forest) =
      let both = occurrences-append (x ∷ q) (map (λ p. name ∷ p) (node_paths e)) (paths_in rest) in
      elim (text_eq.dec name x) [
        | yes same ↦
            subst
              (λ z.
                occurrences (z ∷ q) (paths_in (child name e rest))
                ≡ found (follow (child name e rest) z q))
              same
              (ground (
                arith,
                occurrences-append (name ∷ q) (map (λ p. name ∷ p) (node_paths e)) (paths_in rest),
                occurrences-same name q (node_paths e),
                node_once e q tree,
                forest_once rest name q forest,
                new,
                ==_refl name,
              ))
        | no ne ↦ ground (
          arith,
          both,
          ==_ne name x ne,
          occurrences-other name x q (node_paths e) ne,
          forest_once rest x q forest,
        )
      ]

-- Each node but the root is in the list once, and nothing else is.
abbrev pub ListsOnce : TreeNode → List (List Text) → Type 0
ListsOnce n ps = (p : List Text) → occurrences p ps ≡ (if p == [] then 0 else found (node_at n p))

pub paths_once : (n : TreeNode) → IsTree n → ListsOnce n (paths_in (child_nodes n))
unfolding node_at IsTree path_eq
paths_once (tree_node s nodes) h [] = paths_in-nil nodes
paths_once (tree_node s nodes) h (x ∷ q) = forest_once nodes x q h
