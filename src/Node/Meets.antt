-- ===== src/Node/Meets.antt =====
-- A node greets another one, which answers as the program does.
use dftp.Base.{
  ℤ, true, [], ◌∷◌, Option, none, some, Text, text_eq, returns, ◌≡◌, ◌≢◌, refl, sym, ap, subst, ◌∙◌,
  ==_refl, ==_ne,
}
use dftp.Base.Assoc.{Assoc, lookup}
use dftp.LocalFs.{LocalFs}
use dftp.Cluster.{Cluster, NodeInfo, never, done, update_node, peer_or_new}
use dftp.Cluster.Meet.{met, update_node_lem}
use dftp.Exchange.{
  info, normal, update_nodes, greeted, answer_peers, greet_node, combine_host_and_port,
}
use dftp.Exchange.Greets.{
  AllNodes, insert_new, update_nodes-append, update_node-me, update_nodes-me, greeted-met,
}
use dftp.Mgmt.{encoded, public_peers, public_cluster_info}
use dftp.Node.Present.{present, HasPeer, update_node-HasPeer}
use dftp.Node.Named.{IsNamed}

public_peers-AllNodes : (peers : Assoc NodeInfo) → AllNodes (public_peers peers)
public_peers-AllNodes [] = tt
public_peers-AllNodes ((key, node) ∷ peers) = public_peers-AllNodes peers

lookup-public_peers :
    (key : Text) (peers : Assoc NodeInfo)
    → lookup key peers ≡ none
    → lookup key (public_peers peers) ≡ none
unfolding lookup
lookup-public_peers key [] e = refl
lookup-public_peers key ((k, node) ∷ peers) e = elim (text_eq.dec k key) [
  | yes same ↦ let f = rw (same, ==_refl) at e in cc
  | no ne ↦ rw (==_ne k key ne) (lookup-public_peers key peers (rw (==_ne k key ne) at e))
]

update_nodes-HasPeer :
    (key : Text) (peers : Assoc (Option NodeInfo)) (d : Cluster)
    → HasPeer key d
    → HasPeer key (update_nodes peers d).0
unfolding update_nodes
update_nodes-HasPeer key [] d h = h
update_nodes-HasPeer key ((k, none) ∷ peers) d h = h
update_nodes-HasPeer key ((k, some p) ∷ peers) d h =
    update_nodes-HasPeer key peers (update_node p d) (update_node-HasPeer key p d h)

-- News of a node other than the one that hears it makes it a peer.
update_node-present :
    (p : NodeInfo) (d : Cluster) → p.name ≢ d.me.name → HasPeer p.name (update_node p d)
update_node-present p d ne =
    rw (update_node_lem p d p.name, ==_ne p.name d.me.name ne, ==_refl) refl

-- A peer of the node that answers becomes a peer of the one that greets.
public_peers-HasPeer :
    (key : Text) (peers : Assoc NodeInfo) (d : Cluster)
    → key ≢ d.me.name
    → ((node : NodeInfo) → lookup key peers ≡ some node → node.name ≡ key)
    → present (lookup key peers) ≡ true
    → HasPeer key (update_nodes (public_peers peers) d).0
unfolding update_nodes lookup
public_peers-HasPeer key [] d ne names h = cc
public_peers-HasPeer key ((k, node) ∷ peers) d ne names h = elim (text_eq.dec k key) [
  | yes same ↦
      let named = names node (rw (same, ==_refl) refl) in
      update_nodes-HasPeer key (public_peers peers) (update_node (encoded node) d) (
        subst (λ z. HasPeer z (update_node (encoded node) d)) named
          (update_node-present (encoded node) d (λ p. ne (sym named ∙ p))))
  | no other ↦
      public_peers-HasPeer key peers (update_node (encoded node) d)
        (λ p. ne (p ∙ ap (λ (n : NodeInfo). n.name) (update_node-me (encoded node) d)))
        (λ n found. names n (rw (==_ne k key other) found)) (rw (==_ne k key other) at h)
]

-- What a greeting of the node `c` at `addr` has made of the node `d`.
pub record Meets (addr public_address : Text) (c d d' : Cluster) : Type 0 where
  pub node : NodeInfo
  pub known : lookup c.me.name d'.peers ≡ some node
  pub public_at : node.public_addr ≡ public_address
  pub mgmt_at : node.mgmt_addr ≡ addr
  pub is_greeted : node.greet_state ≡ done
  pub has_push : node.push_state ≢ never
  pub others : (key : Text) → key ≢ d.me.name → HasPeer key c → HasPeer key d'

-- What a node learns from the answer of another one: its peers, and then the node itself.
pub greet_node-learns :
    (self : NodeInfo) (fs : LocalFs) (addr public_address : Text) (now : ℤ) (c d : Cluster)
    → IsNamed self fs c
    → combine_host_and_port addr c.me.public_addr ≡ returns public_address
    → greet_node addr (info (public_cluster_info c)) now d ≡ (
      update_node
          (greeted addr public_address now (encoded c.me))
          (update_nodes (public_peers c.peers) d).0,
      normal,
    )
unfolding greet_node answer_peers
greet_node-learns self fs addr public_address now c d h at =
    let node = greeted addr public_address now (encoded c.me) in
    let new : lookup c.me.name (public_peers c.peers) ≡ none =
      lookup-public_peers c.me.name c.peers (rw h.same_me h.not_me) in
    rw (at, insert_new c.me.name (some node) (public_peers c.peers) new)
      (update_nodes-append (public_peers c.peers) c.me.name node d (public_peers-AllNodes c.peers))

-- The greeting of a node with another name, which answers with its own cluster info, ends normally
-- and makes it a peer.
pub greet_node-Meets :
    (self : NodeInfo) (fs : LocalFs) (addr public_address : Text) (now : ℤ) (c d : Cluster)
    → IsNamed self fs c
    → c.me.name ≢ d.me.name
    → combine_host_and_port addr c.me.public_addr ≡ returns public_address
    → (d' : Cluster) × (greet_node addr (info (public_cluster_info c)) now d ≡ (d', normal))
      × Meets addr public_address c d d'
greet_node-Meets self fs addr public_address now c d h ne at =
    let peers = public_peers c.peers in
    let node = greeted addr public_address now (encoded c.me) in
    let d1 = (update_nodes peers d).0 in
    let same_me = update_nodes-me peers d in
    let ne1 : c.me.name ≢ d1.me.name = λ p. ne (p ∙ ap (λ (n : NodeInfo). n.name) same_me) in
    let fields = greeted-met addr public_address now (encoded c.me) (peer_or_new d1 c.me.name) in
    (
      update_node node d1,
      greet_node-learns self fs addr public_address now c d h at,
      record {
        node = met node (peer_or_new d1 c.me.name);
        known =
            rw (update_node_lem node d1 c.me.name, ==_ne c.me.name d1.me.name ne1, ==_refl) refl;
        public_at = refl;
        mgmt_at = refl;
        is_greeted = fields.0;
        has_push = fields.1;
        others = λ key other has.
            update_node-HasPeer key node d1
              (public_peers-HasPeer key c.peers d other (h.names key) has);
      },
    )
