-- ===== src/Node/Present.antt =====
-- Every step keeps the peers: none is ever removed.
use dftp.Base.{
  ℤ, Bool, true, false, Option, none, some, Text, text_eq, ◌≡◌, refl, arith, inl, inr, Option-cases,
}
use dftp.Base.Assoc.{lookup, lookup-insert}
use dftp.Cluster.{Cluster, NodeInfo, put_peer, schedule_push, update_node}
use dftp.Cluster.Changes.{schedule_push-keeps, update_node-keeps}
use dftp.Exchange.{push_full_update}
use dftp.Node.Steps.{Keeps}

-- There is a peer of that name.
abbrev pub present : Option NodeInfo → Bool
present none = false
present (some node) = true

abbrev pub HasPeer : Text → Cluster → Type 0
HasPeer key c = present (lookup key c.peers) ≡ true

put_peer-HasPeer :
    (key k : Text) (node : NodeInfo) (c : Cluster) → HasPeer k c → HasPeer k (put_peer key node c)
put_peer-HasPeer key k node c h = ground (arith, lookup-insert key k node c.peers)

pub update_node-HasPeer :
    (k : Text) (newinfo : NodeInfo) (c : Cluster) → HasPeer k c → HasPeer k (update_node newinfo c)
update_node-HasPeer k =
    update_node-keeps (HasPeer k) (λ key node c h. put_peer-HasPeer key k node c h) (λ t c h. h)

schedule_push-HasPeer : (k key : Text) (c : Cluster) → HasPeer k c → HasPeer k (schedule_push key c)
schedule_push-HasPeer k =
    schedule_push-keeps (HasPeer k) (λ key node c h. put_peer-HasPeer key k node c h) (λ t c h. h)

push_full_update-HasPeer :
    (k key : Text) (accepted : Bool) (now : ℤ) (c : Cluster)
    → HasPeer k c
    → HasPeer k (push_full_update key accepted now c)
unfolding push_full_update
push_full_update-HasPeer k key accepted now c h = elim (Option-cases (lookup key c.peers)) [
  | inl e ↦ rw (e, push_full_update) h
  | inr (node, e) ↦ rw (e, push_full_update) (put_peer-HasPeer key k _ c h)
]

pub HasPeer-Keeps : (k : Text) → Keeps (HasPeer k)
HasPeer-Keeps k = record {
  meets = update_node-HasPeer k;
  schedules = schedule_push-HasPeer k;
  starts = λ upd c h. h;
  drops = λ before after t c e h. h;
  pushes = push_full_update-HasPeer k;
  applies = λ upd node root c e h.
      put_peer-HasPeer upd.sender_node_name k _ (record c { dfs_root = root }) h;
}

pub present-some : (o : Option NodeInfo) → present o ≡ true → (node : NodeInfo) × (o ≡ some node)
present-some none h = cc
present-some (some node) h = (node, refl)
