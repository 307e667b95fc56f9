-- ===== src/HttpFace/Same.antt =====
-- Trees with nodes at the same paths: their listings have the same lines.
use mathlib.Core.List.{Perm, perm_middle}
use mathlib.Core.List.Perm
use dftp.Base.{
  ℕ, ◌+◌, ◌<◌, true, false, List, [], ◌∷◌, ◌++◌, map, Option, none, some, Text, ◌==◌, text_eq,
  path_eq, if◌then◌else◌, ◌≡◌, refl, arith, All, ap, ◌∙◌, sym, subst, ==_refl, ==_ne,
}
use dftp.Strings.{join, slash}
use dftp.FilePath.Elements.{IsElement}
use dftp.Fat.{TreeNode, tree_node, ChildNodes, no_children, child, lookup_child}
use dftp.Fat.Paths.{node_at}
use dftp.Fat.Trees.{IsTree, IsForest}
use dftp.Fat.Listed.{occurrences, occurrences-append, found, follow, ListsOnce}
use dftp.Update.Through.{there}
use dftp.HttpFace.{find_lines, find}
use dftp.HttpFace.Find.{HasElements, AllElements, find_lem}

-- The names on the way to each node have the property.
abbrev NamesOnPaths : TreeNode → Type 0
NamesOnPaths n =
    (x : Text) (q : List Text) → there (node_at n (x ∷ q)) ≡ true → All IsElement (x ∷ q)

mutual
  unfolding HasElements AllElements IsTree IsForest node_at lookup_child

  tree_elements : (n : TreeNode) → IsTree n → NamesOnPaths n → HasElements n
  tree_elements (tree_node s nodes) t h = forest_elements nodes t h

  forest_elements :
      (nodes : ChildNodes)
      → IsForest nodes
      → ((x : Text) (q : List Text) → there (follow nodes x q) ≡ true → All IsElement (x ∷ q))
      → AllElements nodes
  forest_elements no_children t h = tt
  forest_elements (child name e rest) (new, tree, forest) h = (
    (h name [] (rw (==_refl name, there) refl)).0,
    tree_elements e tree (λ x q i. (h name (x ∷ q) (rw (==_refl name, there) i)).1),
    forest_elements rest forest (λ x q i. elim (text_eq.dec name x) [
      | yes same ↦
          let e' : lookup_child rest x ≡ none = subst (λ z. lookup_child rest z ≡ none) same new in
          let no : false ≡ true = rw (e', there) at i in cc
      | no ne ↦ h x q (rw (==_ne name x ne, there) i)
    ]),
  )

pub HasElements-paths : (n : TreeNode) → IsTree n → NamesOnPaths n → HasElements n
HasElements-paths n t h = tree_elements n t h

-- A path that occurs stands somewhere.
occurs :
    (p : List Text) (ps : List (List Text))
    → 0 < occurrences p ps
    → (l : List (List Text)) × (r : List (List Text)) × (ps ≡ l ++ p ∷ r)
unfolding occurrences
occurs p [] h = absurd (omega (arith, h))
occurs p (a ∷ ps) h = elim (path_eq.dec a p) [
  | yes e ↦ ([], ps, ap (λ z. z ∷ ps) e)
  | no ne ↦
      let (l, r, e) = occurs p ps (ground (arith, h, ==_ne a p ne)) in (a ∷ l, r, ap (λ z. a ∷ z) e)
]

occurrences-nil : (p : List Text) → occurrences p [] ≡ 0
unfolding occurrences
occurrences-nil p = refl

abbrev is_here : List Text → List Text → ℕ
is_here a p = if a == p then 1 else 0

occurrences-cons :
    (p a : List Text) (ps : List (List Text))
    → occurrences p (a ∷ ps) ≡ is_here a p + occurrences p ps
unfolding occurrences
occurrences-cons p a ps = refl

occurrences_self :
    (p : List Text) (ps : List (List Text)) → occurrences p (p ∷ ps) ≡ 1 + occurrences p ps
occurrences_self p ps = occurrences-cons p p ps ∙ rw (==_refl p) refl

pub occurrences-perm :
    (ps ps' : List (List Text))
    → ((p : List Text) → occurrences p ps ≡ occurrences p ps')
    → Perm ps ps'
occurrences-perm [] [] h = Perm.refl []
occurrences-perm [] (p ∷ ps') h =
    absurd (omega (arith, h p, occurrences-nil p, occurrences_self p ps'))
occurrences-perm (p ∷ ps) ps' h =
    let (l, r, e) = occurs p ps' (omega (arith, h p, occurrences_self p ps)) in
    let rest = occurrences-perm ps (l ++ r) (λ k.
      let all : occurrences k (p ∷ ps) ≡ occurrences k (l ++ p ∷ r) = h k ∙ ap (occurrences k) e in
      omega (
        arith,
        all,
        occurrences-append k l (p ∷ r),
        occurrences-append k l r,
        occurrences-cons k p ps,
        occurrences-cons k p r,
      )) in
    subst (Perm (p ∷ ps)) (sym e) (Perm.trans (Perm.cons p rest) (Perm.symm (perm_middle l r)))

found-there : (o o' : Option TreeNode) → there o ≡ there o' → found o ≡ found o'
found-there none none e = refl
found-there none (some n) e = cc
found-there (some n) none e = cc
found-there (some n) (some m) e = refl

-- The trees have nodes at the same paths.
abbrev pub SameShape : TreeNode → TreeNode → Type 0
SameShape n n' = (x : Text) (q : List Text) → there (node_at n (x ∷ q)) ≡ there (node_at n' (x ∷ q))

once-same :
    (n n' : TreeNode) (ps ps' : List (List Text))
    → SameShape n n'
    → ListsOnce n ps
    → ListsOnce n' ps'
    → (p : List Text) → occurrences p ps ≡ occurrences p ps'
unfolding path_eq
once-same n n' ps ps' same h h' [] = h [] ∙ sym (h' [])
once-same n n' ps ps' same h h' (x ∷ q) =
    h (x ∷ q) ∙ found-there (node_at n (x ∷ q)) (node_at n' (x ∷ q)) (same x q) ∙ sym (h' (x ∷ q))

once-perm :
    (n n' : TreeNode) (ps ps' : List (List Text))
    → SameShape n n'
    → ListsOnce n ps
    → ListsOnce n' ps'
    → Perm ps ps'
once-perm n n' ps ps' same h h' = occurrences-perm ps ps' (once-same n n' ps ps' same h h')

-- Both listings return, and have the same lines, in some order.
abbrev pub SameLines : TreeNode → TreeNode → Type 0
SameLines n n' =
    (ls : List Text) × (ls' : List Text) × (find n ≡ find_lines ls)
    × (find n' ≡ find_lines ls')
    × Perm ls ls'

pub find-same :
    (n n' : TreeNode)
    → IsTree n
    → IsTree n'
    → HasElements n
    → HasElements n'
    → SameShape n n'
    → SameLines n n'
find-same n n' t t' h h' same =
    let (ps, e, once) = find_lem n t h in
    let (ps', e', once') = find_lem n' t' h' in
    (
      map (λ p. join p slash) ps,
      map (λ p. join p slash) ps',
      e,
      e',
      Perm.map (λ p. join p slash) (once-perm n n' ps ps' same once once'),
    )
