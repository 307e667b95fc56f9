-- ===== src/Node/Joins.antt =====
-- A node is told to join another one: whom it meets, and whom it goes on to greet.
use dftp.Base.{
  ◌≤◌, ℤ, true, false, [], ◌∷◌, Option, none, some, Text, codes, text_eq, if◌then◌else◌, ◌≡◌, ◌≢◌,
  refl, arith, ap, if-holds, sym, ◌∙◌, subst, returns, ==_refl, ==_ne,
}
use dftp.Base.Assoc.{Assoc, lookup, lookup-insert}
use dftp.LocalFs.{LocalFs}
use dftp.Cluster.{
  Task, spawn, Cluster, NodeInfo, greet, is_never, is_done, put_peer, schedule_greet, schedule_push,
  update_node, peer_or_new, refresh,
}
use dftp.Cluster.Changes.{schedule_push-keeps, update_node-keeps}
use dftp.Cluster.Meet.{update_node_lem}
use dftp.Exchange.{
  Answer, Ending, greeted, info, normal, panicked, update_nodes, greet_node, combine_host_and_port,
}
use dftp.Exchange.Greets.{update_node-me}
use dftp.Mgmt.{
  Request, encoded, public_peers, public_cluster_info, respond_info, join_loop, catch_panic,
  http_join,
}
use dftp.Node.Tasks.{is_greet, count, count-append}
use dftp.Node.Present.{present, HasPeer}
use dftp.Node.Named.{IsNamed}
use dftp.Node.Meets.{Meets, greet_node-learns, greet_node-Meets}

-- A greeting of the peer is still to run.
abbrev pub WillGreet : Text → Cluster → Type 0
WillGreet key c = 1 ≤ count (is_greet key) c.tasks

module _ (k : Text) where
  starts-WillGreet : (t : Task) (c : Cluster) → WillGreet k c → WillGreet k (spawn t c)
  starts-WillGreet t c h = omega (arith, count-append (is_greet k) c.tasks (t ∷ []))

  schedule_push-WillGreet :
      (key : Text) (c : Cluster) → WillGreet k c → WillGreet k (schedule_push key c)
  schedule_push-WillGreet = schedule_push-keeps (WillGreet k) (λ key node c h. h) starts-WillGreet

  update_node-WillGreet :
      (newinfo : NodeInfo) (c : Cluster) → WillGreet k c → WillGreet k (update_node newinfo c)
  update_node-WillGreet = update_node-keeps (WillGreet k) (λ key node c h. h) starts-WillGreet

  update_nodes-WillGreet :
      (peers : Assoc (Option NodeInfo)) (c : Cluster)
      → WillGreet k c
      → WillGreet k (update_nodes peers c).0
  unfolding update_nodes
  update_nodes-WillGreet [] c h = h
  update_nodes-WillGreet ((key, none) ∷ peers) c h = h
  update_nodes-WillGreet ((key, some p) ∷ peers) c h =
      update_nodes-WillGreet peers (update_node p c) (update_node-WillGreet p c h)

-- The peer that was just written, and never greeted, will be greeted.
schedule_greet-greets :
    (key : Text) (node : NodeInfo) (c : Cluster)
    → is_never node.greet_state ≡ true
    → WillGreet key (schedule_greet key (put_peer key node c))
unfolding schedule_greet
schedule_greet-greets key node c e = ground (
  arith,
  e,
  lookup-insert key key node c.peers,
  ==_refl key,
  count-append (is_greet key) c.tasks (greet node.mgmt_addr key ∷ []),
)

-- News of a node that is no peer yet, and not the node itself.
update_node-greets :
    (newinfo : NodeInfo) (c : Cluster)
    → newinfo.name ≢ c.me.name
    → is_done newinfo.greet_state ≡ false
    → lookup newinfo.name c.peers ≡ none
    → WillGreet newinfo.name (update_node newinfo c)
unfolding update_node
update_node-greets newinfo c ne fresh new =
    let node = refresh newinfo (peer_or_new c newinfo.name) in
    let c1 = put_peer newinfo.name node c in
    let c2 = if is_never node.greet_state then schedule_greet newinfo.name c1 else c1 in
    let state : is_never node.greet_state ≡ true = ground (arith, fresh, new) in
    let h : WillGreet newinfo.name c2 =
      rw state (schedule_greet-greets newinfo.name node c state) in
    rw (==_ne newinfo.name c.me.name ne) (
      if-holds (WillGreet newinfo.name) (is_never node.push_state) (schedule_push newinfo.name c2)
        c2 (schedule_push-WillGreet newinfo.name newinfo.name c2 h) h)

public_peers-WillGreet :
    (key : Text) (peers : Assoc NodeInfo) (d : Cluster)
    → key ≢ d.me.name
    → ((node : NodeInfo) → lookup key peers ≡ some node → node.name ≡ key)
    → present (lookup key peers) ≡ true
    → lookup key d.peers ≡ none
    → WillGreet key (update_nodes (public_peers peers) d).0
unfolding update_nodes lookup
public_peers-WillGreet key [] d ne names h new = cc
public_peers-WillGreet key ((k, node) ∷ peers) d ne names h new = elim (text_eq.dec node.name key) [
  | yes same ↦ update_nodes-WillGreet key (public_peers peers) (update_node (encoded node) d) (
      subst (λ z. WillGreet z (update_node (encoded node) d)) same
        (update_node-greets (encoded node) d (λ p. ne (sym same ∙ p)) refl (rw same new)))
  | no other ↦ elim (text_eq.dec k key) [
    | yes k_same ↦ absurd (other (names node (rw (k_same, ==_refl) refl)))
    | no k_other ↦
        public_peers-WillGreet key peers (update_node (encoded node) d)
          (λ p. ne (p ∙ ap (λ (n : NodeInfo). n.name) (update_node-me (encoded node) d)))
          (λ n found. names n (rw (==_ne k key k_other) found)) (rw (==_ne k key k_other) at h)
          (ground (arith, update_node_lem (encoded node) d key, ==_ne node.name key other, new))
  ]
]

join_loop_one :
    (answers : Text → Answer) (now : ℤ) (addr : Text) (d d' : Cluster)
    → greet_node addr (answers addr) now d ≡ (d', normal)
    → join_loop answers now (addr ∷ []) d ≡ (d', normal)
unfolding join_loop
join_loop_one answers now addr d d' met =
    ap
      (λ (z : Cluster × Ending). elim z.1 as (λ _. Cluster × Ending) [
        | normal ↦ (z.0, normal)
        | panicked ↦ (z.0, panicked)
      ])
      met

-- The answer to a joining request, once the greeting of its one peer has ended normally.
join_one :
    (r : Request) (answers : Text → Answer) (now : ℤ) (addr : Text) (d d' : Cluster)
    → r.method ≡ codes "POST"
    → r.form_peers ≡ addr ∷ []
    → greet_node addr (answers addr) now d ≡ (d', normal)
    → http_join r answers now d ≡ respond_info d'
unfolding http_join
join_one r answers now addr d d' post one met =
    rw (post, ==_refl (codes "POST"), one)
      (ap catch_panic (join_loop_one answers now addr d d' met))

-- A request to join a node with another name, which answers the greeting with its own cluster info, is
-- answered with the cluster info, and makes the node a greeted peer, whose push is no longer marked as
-- never started, if the joined address and the node's public address can be combined without a panic.
-- Every peer of it, but the node that joins, becomes a peer too, and is to be greeted if it was not a
-- peer before.
pub http_join-Meets :
    (self : NodeInfo) (fs : LocalFs) (addr public_address : Text) (now : ℤ) (c d : Cluster)
    (r : Request) (answers : Text → Answer)
    → IsNamed self fs c
    → c.me.name ≢ d.me.name
    → combine_host_and_port addr c.me.public_addr ≡ returns public_address
    → r.method ≡ codes "POST"
    → r.form_peers ≡ addr ∷ []
    → answers addr ≡ info (public_cluster_info c)
    → (d' : Cluster) × (http_join r answers now d ≡ respond_info d')
      × Meets addr public_address c d d'
      × ((key : Text)
          → key ≢ d.me.name
          → HasPeer key c
          → lookup key d.peers ≡ none
          → WillGreet key d')
http_join-Meets self fs addr public_address now c d r answers h ne at post one answered =
    let (d', met, meets) = greet_node-Meets self fs addr public_address now c d h ne at in
    let node = greeted addr public_address now (encoded c.me) in
    let e = greet_node-learns self fs addr public_address now c d h at in
    let same : update_node node (update_nodes (public_peers c.peers) d).0 ≡ d' =
      ap (λ (z : Cluster × Ending). z.0) (sym e ∙ met) in
    (
      d',
      join_one r answers now addr d d' post one (ap (λ a. greet_node addr a now d) answered ∙ met),
      meets,
      λ key other has new. subst (WillGreet key) same (
          update_node-WillGreet key node (update_nodes (public_peers c.peers) d).0
            (public_peers-WillGreet key c.peers d other (h.names key) has new)),
    )
