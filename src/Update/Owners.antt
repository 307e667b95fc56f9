-- ===== src/Update/Owners.antt =====
-- The owner of a directory.
use mathlib.Core.List.{Perm}
use mathlib.Core.Logic.{∥∥₁_elim}
use mathlib.Core.HLevel.{hedberg}
use native.Mathlib.Decide.{ℕ_discrete}
use dftp.Base.Perms.{AllPairs, fold-perm}
use dftp.Base.{
  List, ◌∷◌, All, All-map, foldl, ap, sym, not, arith, Bool, true, false, ◌&&◌, [], Text, ◌==◌,
  text_eq, if◌then◌else◌, ◌≡◌, ◌≢◌, refl, ==_ne, ==_refl, ◌∙◌,
}
use dftp.Fat.{
  FileStat, multiple_node_owners, TreeNode, tree_node, ChildNodes, no_children, child, get_filestat,
}
use dftp.Update.{owner_loop, recalculate_owner}

-- Whether each child has that owner.
abbrev pub all_owned : Text → ChildNodes → Bool
all_owned owner no_children = true
all_owned owner (child name e rest) =
    let others = all_owned owner rest in (owner == (get_filestat e).owner_node) && others

if-same : {A : Type 0} (b : Bool) (x : A) → (if b then x else x) ≡ x
if-same true x = refl
if-same false x = refl

owner_loop_lem :
    (owner : Text) (nodes : ChildNodes)
    → owner ≢ []
    → owner_loop owner nodes ≡ (if all_owned owner nodes then owner else multiple_node_owners)
unfolding owner_loop
owner_loop_lem owner no_children h = refl
owner_loop_lem owner (child name e rest) h = elim (text_eq.dec owner (get_filestat e).owner_node) [
  | yes same ↦ rw (← same, ==_ne owner [] h, ==_refl) (owner_loop_lem owner rest h)
  | no ne ↦
      rw (==_ne owner [] h, ==_ne owner (get_filestat e).owner_node ne)
        (owner_loop_lem multiple_node_owners rest (λ p. cc)
          ∙ if-same (all_owned multiple_node_owners rest) multiple_node_owners)
]

-- The owner of a directory whose first child has an owner is that owner if all its children have it,
-- and the mark of several owners otherwise. Nothing else of the directory changes.
pub recalculate_owner_lem :
    (s : FileStat) (name : Text) (e : TreeNode) (rest : ChildNodes)
    → s.dir ≡ true
    → (get_filestat e).owner_node ≢ []
    → recalculate_owner (tree_node s (child name e rest))
      ≡ tree_node
          (record s {
            owner_node =
                if all_owned (get_filestat e).owner_node rest
                then (get_filestat e).owner_node
                else multiple_node_owners;
          })
          (child name e rest)
unfolding recalculate_owner owner_loop text_eq
recalculate_owner_lem s name e rest d h =
    rw (d, owner_loop_lem (get_filestat e).owner_node rest h) refl

-- The owners of the children, in the order of the map.
abbrev pub owners : ChildNodes → List Text
owners no_children = []
owners (child name e rest) = (get_filestat e).owner_node ∷ owners rest

-- One round of the loop.
abbrev owner_step : Text → Text → Text
owner_step owner next =
    if owner == [] then next else if not (owner == next) then multiple_node_owners else owner

owner_loop-eq-foldl :
    (owner : Text) (nodes : ChildNodes)
    → owner_loop owner nodes ≡ foldl owner_step owner (owners nodes)
unfolding owner_loop
owner_loop-eq-foldl owner no_children = refl
owner_loop-eq-foldl owner (child name e rest) =
    owner_loop-eq-foldl (owner_step owner (get_filestat e).owner_node) rest

abbrev BothOwned : Text → Text → Type 0
BothOwned a b = (a ≢ []) × (b ≢ [])

owner_step_comm :
    (s a b : Text) → BothOwned a b → owner_step (owner_step s a) b ≡ owner_step (owner_step s b) a
owner_step_comm s a b h = ground (arith, h)

AllPairs-owned : (os : List Text) → All (λ o. o ≢ []) os → AllPairs BothOwned os
AllPairs-owned [] h = tt
AllPairs-owned (o ∷ os) (ne, h) = (All-map (λ p q. (ne, q)) os h, AllPairs-owned os h)

text_set : IsSet Text
text_set = hedberg (hlevel ℕ_discrete)

recalculated-stat :
    (s : FileStat) (nodes : ChildNodes)
    → get_filestat (recalculate_owner (tree_node s nodes))
      ≡ (if s.dir then record s { owner_node = owner_loop [] nodes } else s)
unfolding recalculate_owner
recalculated-stat s nodes = ground arith

-- What is recalculated for a directory does not depend on the order in which its children come from the
-- map, if each of them has an owner.
pub recalculate_owner-perm :
    (s : FileStat) (nodes nodes' : ChildNodes)
    → All (λ o. o ≢ []) (owners nodes)
    → Perm (owners nodes) (owners nodes')
    → get_filestat (recalculate_owner (tree_node s nodes))
      ≡ get_filestat (recalculate_owner (tree_node s nodes'))
recalculate_owner-perm s nodes nodes' h perm =
    let same : owner_loop [] nodes ≡ owner_loop [] nodes' = ∥∥₁_elim perm (text_set _ _) λ q.
      owner_loop-eq-foldl [] nodes
      ∙ fold-perm BothOwned owner_step owner_step_comm (λ a b p. (p.1, p.0)) q
          (AllPairs-owned (owners nodes) h) []
      ∙ sym (owner_loop-eq-foldl [] nodes') in
    recalculated-stat s nodes
    ∙ ap (λ o. if s.dir then record s { owner_node = o } else s) same
    ∙ sym (recalculated-stat s nodes')
