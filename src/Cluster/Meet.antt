-- ===== src/Cluster/Meet.antt =====
-- What `UpdateNode` does to the peers.
use dftp.Base.{
  List, [], ◌∷◌, ◌++◌, append_assoc, append-nil, Bool-cases, inl, inr, Bool, true, false, some,
  Text, ◌==◌, text_eq, if◌then◌else◌, ◌≡◌, ◌≢◌, refl, arith, ==_ne, ==_refl, ap, ◌∙◌, sym,
}
use dftp.Base.Assoc.{lookup, lookup-insert}
use dftp.Cluster.{
  Cluster, NodeInfo, PeerState, never, pending, done, is_never, is_pending, is_done, put_peer, Task,
  greet, push, peer_or_new, refresh, schedule_greet, schedule_push, update_node,
}

-- A node after some of its scheduled states have changed.
abbrev scheduled : PeerState → PeerState
scheduled never = pending
scheduled pending = pending
scheduled done = done

-- The greeting's state by the news, which can tell that it is done.
abbrev pub known_greeting : NodeInfo → NodeInfo → PeerState
known_greeting newinfo node =
    if is_done newinfo.greet_state then newinfo.greet_state else node.greet_state

-- The record of a node that `UpdateNode` has heard of: new addresses, a greeting and a push that are
-- scheduled if they never were, and the times of its updates as before.
abbrev pub met : NodeInfo → NodeInfo → NodeInfo
met newinfo node = record node {
  public_addr = newinfo.public_addr;
  mgmt_addr = newinfo.mgmt_addr;
  last_alive = newinfo.last_alive;
  greet_state = scheduled (known_greeting newinfo node);
  push_state = scheduled node.push_state;
}

lookup-schedule_greet :
    (key k : Text) (c : Cluster) (node : NodeInfo)
    → lookup key c.peers ≡ some node
    → lookup k (if is_never node.greet_state then schedule_greet key c else c).peers ≡ (
        if key == k
        then some (record node { greet_state = scheduled node.greet_state })
        else lookup k c.peers)
unfolding schedule_greet
lookup-schedule_greet key k c node e =
    ground (arith, lookup-insert key k (record node { greet_state = pending }) c.peers)

lookup-schedule_push :
    (key k : Text) (c : Cluster) (node : NodeInfo)
    → lookup key c.peers ≡ some node
    → lookup k (if is_never node.push_state then schedule_push key c else c).peers ≡ (
        if key == k
        then some (record node { push_state = scheduled node.push_state })
        else lookup k c.peers)
unfolding schedule_push
lookup-schedule_push key k c node e =
    ground (arith, lookup-insert key k (record node { push_state = pending }) c.peers)

if-twice :
    {A : Type 0} (b : Bool) (x y z : A)
    → (if b then x else if b then y else z) ≡ (if b then x else z)
if-twice true x y z = refl
if-twice false x y z = refl

if-false : {A : Type 0} (b : Bool) (x y : A) → b ≡ false → (if b then x else y) ≡ y
if-false b x y e = rw e

-- The peers once news of another node has been taken in.
lookup-news :
    (newinfo : NodeInfo) (c : Cluster) (k : Text)
    → newinfo.name ≢ c.me.name
    → lookup k (update_node newinfo c).peers ≡ (
        if newinfo.name == k
        then some (met newinfo (peer_or_new c newinfo.name))
        else lookup k c.peers)
unfolding update_node
lookup-news newinfo c k ne =
    let key = newinfo.name in
    let node = refresh newinfo (peer_or_new c key) in
    let node2 = record node { greet_state = scheduled node.greet_state } in
    let c1 = put_peer key node c in
    let c2 = if is_never node.greet_state then schedule_greet key c1 else c1 in
    let here : lookup key c1.peers ≡ some node = rw (lookup-insert key key node c.peers, ==_refl) in
    let here2 : lookup key c2.peers ≡ some node2 =
      rw (lookup-schedule_greet key key c1 node here, ==_refl) in
    rw (==_ne newinfo.name c.me.name ne) (
      lookup-schedule_push key k c2 node2 here2
      ∙ ap (λ o. if key == k then some (met newinfo (peer_or_new c key)) else o)
          (lookup-schedule_greet key k c1 node here
            ∙ ap (λ o. if key == k then some node2 else o) (lookup-insert key k node c.peers))
      ∙ ap (λ o. if key == k then some (met newinfo (peer_or_new c key)) else o)
          (if-twice (key == k) (some node2) (some node) (lookup k c.peers))
      ∙ if-twice (key == k) (some (met newinfo (peer_or_new c key))) (some node2)
          (lookup k c.peers))

-- What the peers are after news of a node.
pub update_node_lem :
    (newinfo : NodeInfo) (c : Cluster) (k : Text)
    → lookup k (update_node newinfo c).peers ≡ (
        if newinfo.name == c.me.name
        then lookup k c.peers
        else if newinfo.name == k
        then some (met newinfo (peer_or_new c newinfo.name))
        else lookup k c.peers)
unfolding update_node
update_node_lem newinfo c k = elim (text_eq.dec newinfo.name c.me.name) [
  | yes e ↦ rw (e, ==_refl)
  | no ne ↦
      lookup-news newinfo c k ne
      ∙ sym (if-false (newinfo.name == c.me.name) _ _ (==_ne newinfo.name c.me.name ne))
]

-- The calls that are started for a node that was never greeted, or never pushed to.
abbrev pub calls : NodeInfo → NodeInfo → List Task
calls newinfo node =
    (if is_never (known_greeting newinfo node)
      then greet newinfo.mgmt_addr newinfo.name ∷ []
      else [])
    ++ (if is_never node.push_state then push newinfo.name ∷ [] else [])

schedule_greet-tasks :
    (key : Text) (c : Cluster) (node : NodeInfo)
    → lookup key c.peers ≡ some node
    → (if is_never node.greet_state then schedule_greet key c else c).tasks
      ≡ c.tasks ++ (if is_never node.greet_state then greet node.mgmt_addr key ∷ [] else [])
unfolding schedule_greet
schedule_greet-tasks key c node e = elim (Bool-cases (is_never node.greet_state)) [
  | inl t ↦ rw (t, e, schedule_greet, t) refl
  | inr f ↦ rw (f, append-nil c.tasks) refl
]

never-pending : (s : PeerState) → is_never s ≡ true → is_pending s ≡ false
never-pending never e = refl
never-pending pending e = cc
never-pending done e = refl

schedule_push-tasks :
    (key : Text) (c : Cluster) (node : NodeInfo)
    → lookup key c.peers ≡ some node
    → (if is_never node.push_state then schedule_push key c else c).tasks
      ≡ c.tasks ++ (if is_never node.push_state then push key ∷ [] else [])
unfolding schedule_push
schedule_push-tasks key c node e = elim (Bool-cases (is_never node.push_state)) [
  | inl t ↦ rw (t, e, schedule_push, never-pending node.push_state t) refl
  | inr f ↦ rw (f, append-nil c.tasks) refl
]

update_node-tasks :
    (newinfo : NodeInfo) (c : Cluster)
    → newinfo.name ≢ c.me.name
    → (update_node newinfo c).tasks ≡ c.tasks ++ calls newinfo (peer_or_new c newinfo.name)
unfolding update_node
update_node-tasks newinfo c ne =
    let key = newinfo.name in
    let node = refresh newinfo (peer_or_new c key) in
    let node2 = record node { greet_state = scheduled node.greet_state } in
    let c1 = put_peer key node c in
    let c2 = if is_never node.greet_state then schedule_greet key c1 else c1 in
    let here : lookup key c1.peers ≡ some node = rw (lookup-insert key key node c.peers, ==_refl) in
    let here2 : lookup key c2.peers ≡ some node2 =
      rw (lookup-schedule_greet key key c1 node here, ==_refl) in
    let greets = if is_never node.greet_state then greet node.mgmt_addr key ∷ [] else [] in
    let pushes = if is_never node.push_state then push key ∷ [] else [] in
    ap (λ (z : Cluster). z.tasks)
      (if-false (newinfo.name == c.me.name) c _ (==_ne newinfo.name c.me.name ne))
    ∙ (schedule_push-tasks key c2 node2 here2
        ∙ ap (λ ts. ts ++ pushes) (schedule_greet-tasks key c1 node here)
        ∙ append_assoc c.tasks greets pushes)

-- The peers and the calls to end after news of a node.
abbrev pub Learns : NodeInfo → Cluster → Text → Cluster → Type 0
Learns newinfo c k c' =
    (lookup k c'.peers ≡ (
      if newinfo.name == c.me.name
      then lookup k c.peers
      else if newinfo.name == k
      then some (met newinfo (peer_or_new c newinfo.name))
      else lookup k c.peers))
    × (c'.tasks ≡ (
        if newinfo.name == c.me.name
        then c.tasks
        else c.tasks ++ calls newinfo (peer_or_new c newinfo.name)))

-- News of another node makes it a peer with the new addresses, leaves every other peer, and starts a
-- greeting and a push of the node exactly if they were never started, which its record then says; news
-- of the node itself changes no peer, and starts nothing.
pub update_node-Learns :
    (newinfo : NodeInfo) (c : Cluster) (k : Text) → Learns newinfo c k (update_node newinfo c)
unfolding update_node
update_node-Learns newinfo c k = elim (text_eq.dec newinfo.name c.me.name) [
  | yes e ↦ (update_node_lem newinfo c k, rw (e, ==_refl) refl)
  | no ne ↦ (
    update_node_lem newinfo c k,
    update_node-tasks newinfo c ne
        ∙ sym (if-false (newinfo.name == c.me.name) _ _ (==_ne newinfo.name c.me.name ne)),
  )
]
