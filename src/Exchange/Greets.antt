-- ===== src/Exchange/Greets.antt =====
-- What a greeting does when the greeted node answers with its cluster info.
use dftp.Base.{
  ℤ, [], ◌∷◌, ◌++◌, Option, none, some, Text, text_eq, ◌≡◌, ◌≢◌, refl, arith, ap, ◌∙◌, ==_refl,
  ==_ne,
}
use dftp.Base.Assoc.{Assoc, lookup, insert}
use dftp.Cluster.{Cluster, NodeInfo, never, done, schedule_push, schedule_greet, update_node}
use dftp.Cluster.Meet.{met}
use dftp.Exchange.{normal, update_nodes, greeted}

-- Every pointer of the map is to a node.
abbrev pub AllNodes : Assoc (Option NodeInfo) → Type 0
AllNodes [] = Unit
AllNodes ((key, none) ∷ peers) = ⊥
AllNodes ((key, some p) ∷ peers) = AllNodes peers

pub insert_new :
    (key : Text) (p : Option NodeInfo) (peers : Assoc (Option NodeInfo))
    → lookup key peers ≡ none
    → insert key p peers ≡ peers ++ (key, p) ∷ []
unfolding insert lookup
insert_new key p [] e = refl
insert_new key p ((k, q) ∷ peers) e = elim (text_eq.dec k key) [
  | yes same ↦ let f = rw (same, lookup, ==_refl) at e in cc
  | no ne ↦
      rw (==_ne k key ne) (ap (λ r. (k, q) ∷ r) (insert_new key p peers (rw (==_ne k key ne) at e)))
]

pub update_nodes-append :
    (peers : Assoc (Option NodeInfo)) (key : Text) (p : NodeInfo) (c : Cluster)
    → AllNodes peers
    → update_nodes (peers ++ (key, some p) ∷ []) c
      ≡ (update_node p (update_nodes peers c).0, normal)
unfolding update_nodes
update_nodes-append [] key p c h = refl
update_nodes-append ((k, none) ∷ peers) key p c h = absurd h
update_nodes-append ((k, some q) ∷ peers) key p c h =
    update_nodes-append peers key p (update_node q c) h

pub update_node-me : (newinfo : NodeInfo) (c : Cluster) → (update_node newinfo c).me ≡ c.me
unfolding update_node schedule_greet schedule_push
update_node-me newinfo c = ground arith

pub update_nodes-me :
    (peers : Assoc (Option NodeInfo)) (c : Cluster) → (update_nodes peers c).0.me ≡ c.me
unfolding update_nodes
update_nodes-me [] c = refl
update_nodes-me ((k, none) ∷ peers) c = refl
update_nodes-me ((k, some q) ∷ peers) c =
    update_nodes-me peers (update_node q c) ∙ update_node-me q c

-- A peer that is greeted has been greeted, and a push to it has been scheduled.
pub greeted-met :
    (addr public_address : Text) (now : ℤ) (node old : NodeInfo)
    → let m = met (greeted addr public_address now node) old in
      (m.greet_state ≡ done) × (m.push_state ≢ never)
greeted-met addr public_address now node old = (refl, ground arith)
