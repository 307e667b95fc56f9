-- ===== src/Node/Tasks.antt =====
-- Counting the calls that are still to run for a peer.
use dftp.Base.{
  if-holds, ℕ, ◌+◌, ◌≤◌, Bool, false, List, [], ◌∷◌, ◌++◌, Option, none, some, Text, ◌==◌, text_eq,
  if◌then◌else◌, ◌≡◌, refl, arith,
}
use dftp.Base.Assoc.{lookup, lookup-insert}
use dftp.Cluster.{
  Cluster, NodeInfo, pending, put_peer, peer_or_new, refresh, Task, greet, push, is_never,
  is_pending, schedule_greet, schedule_push, update_node,
}

abbrev pub is_push : Text → Task → Bool
is_push key (push k) = k == key
is_push key _ = false

abbrev pub is_greet : Text → Task → Bool
is_greet key (greet addr k) = k == key
is_greet key _ = false

abbrev pub count : (Task → Bool) → List Task → ℕ
count p [] = 0
count p (t ∷ ts) = (if p t then 1 else 0) + count p ts

pub count-append :
    (p : Task → Bool) (xs ys : List Task) → count p (xs ++ ys) ≡ count p xs + count p ys
count-append p [] ys = omega arith
count-append p (x ∷ xs) ys = omega (arith, count-append p xs ys)

-- How many pushes to a peer there are, by its state.
abbrev pub pushing : Option NodeInfo → ℕ
pushing none = 0
pushing (some node) = if is_pending node.push_state then 1 else 0

-- How many scheduled greetings of a peer there can be, by its state.
abbrev pub greeting : Option NodeInfo → ℕ
greeting none = 0
greeting (some node) = if is_never node.greet_state then 0 else 1

abbrev pub PushTracked : Cluster → Text → Type 0
PushTracked c key = count (is_push key) c.tasks ≡ pushing (lookup key c.peers)

abbrev pub GreetTracked : Cluster → Text → Type 0
GreetTracked c key = count (is_greet key) c.tasks ≤ greeting (lookup key c.peers)

-- The pushes to run for a peer are one if its push is pending and none if not; of scheduled
-- greetings there is at most one, and none before it is scheduled.
pub record IsTracked (c : Cluster) : Type 0 where
  pub pushes : (key : Text) → PushTracked c key
  pub greets : (key : Text) → GreetTracked c key

module _ (key k : Text) (c : Cluster) where
  schedule_push-tracked :
      (o : Option NodeInfo)
      → lookup key c.peers ≡ o
      → PushTracked c k
      → GreetTracked c k
      → PushTracked (schedule_push key c) k × GreetTracked (schedule_push key c) k
  unfolding schedule_push
  schedule_push-tracked none e p g = ground arith
  schedule_push-tracked (some node) e p g = ground (
    arith,
    count-append (is_push k) c.tasks (push key ∷ []),
    count-append (is_greet k) c.tasks (push key ∷ []),
    lookup-insert key k (record node { push_state = pending }) c.peers,
  )

  schedule_greet-tracked :
      (o : Option NodeInfo)
      → lookup key c.peers ≡ o
      → PushTracked c k
      → GreetTracked c k
      → PushTracked (schedule_greet key c) k × GreetTracked (schedule_greet key c) k
  unfolding schedule_greet
  schedule_greet-tracked none e p g = ground arith
  schedule_greet-tracked (some node) e p g = ground (
    arith,
    count-append (is_push k) c.tasks (greet node.mgmt_addr key ∷ []),
    count-append (is_greet k) c.tasks (greet node.mgmt_addr key ∷ []),
    lookup-insert key k (record node { greet_state = pending }) c.peers,
  )

  -- Writing a peer that is pushed to, and was greeted, as before.
  put_peer-tracked :
      (node : NodeInfo)
      → pushing (some node) ≡ pushing (lookup key c.peers)
      → greeting (lookup key c.peers) ≤ greeting (some node)
      → PushTracked c k
      → GreetTracked c k
      → PushTracked (put_peer key node c) k × GreetTracked (put_peer key node c) k
  put_peer-tracked node same more p g = ground (arith, lookup-insert key k node c.peers)

pub schedule_push-IsTracked :
    (key : Text) (c : Cluster) → IsTracked c → IsTracked (schedule_push key c)
schedule_push-IsTracked key c h = record {
  pushes =
      λ k. (schedule_push-tracked key k c (lookup key c.peers) refl (h.pushes k) (h.greets k)).0;
  greets =
      λ k. (schedule_push-tracked key k c (lookup key c.peers) refl (h.pushes k) (h.greets k)).1;
}

pub schedule_greet-IsTracked :
    (key : Text) (c : Cluster) → IsTracked c → IsTracked (schedule_greet key c)
schedule_greet-IsTracked key c h = record {
  pushes =
      λ k. (schedule_greet-tracked key k c (lookup key c.peers) refl (h.pushes k) (h.greets k)).0;
  greets =
      λ k. (schedule_greet-tracked key k c (lookup key c.peers) refl (h.pushes k) (h.greets k)).1;
}

pub put_peer-IsTracked :
    (key : Text) (node : NodeInfo) (c : Cluster)
    → pushing (some node) ≡ pushing (lookup key c.peers)
    → greeting (lookup key c.peers) ≤ greeting (some node)
    → IsTracked c
    → IsTracked (put_peer key node c)
put_peer-IsTracked key node c same more h = record {
  pushes = λ k. (put_peer-tracked key k c node same more (h.pushes k) (h.greets k)).0;
  greets = λ k. (put_peer-tracked key k c node same more (h.pushes k) (h.greets k)).1;
}

refresh-push :
    (newinfo : NodeInfo) (c : Cluster) (key : Text)
    → pushing (some (refresh newinfo (peer_or_new c key))) ≡ pushing (lookup key c.peers)
refresh-push newinfo c key = ground arith

refresh-greet :
    (newinfo : NodeInfo) (c : Cluster) (key : Text)
    → greeting (lookup key c.peers) ≤ greeting (some (refresh newinfo (peer_or_new c key)))
refresh-greet newinfo c key = ground arith

pub update_node-IsTracked :
    (newinfo : NodeInfo) (c : Cluster) → IsTracked c → IsTracked (update_node newinfo c)
unfolding update_node
update_node-IsTracked newinfo c h =
    let node = refresh newinfo (peer_or_new c newinfo.name) in
    let c1 = put_peer newinfo.name node c in
    let c2 = if is_never node.greet_state then schedule_greet newinfo.name c1 else c1 in
    let h1 =
      put_peer-IsTracked newinfo.name node c (refresh-push newinfo c newinfo.name)
        (refresh-greet newinfo c newinfo.name) h in
    let h2 =
      if-holds IsTracked (is_never node.greet_state) (schedule_greet newinfo.name c1) c1
        (schedule_greet-IsTracked newinfo.name c1 h1) h1 in
    if-holds IsTracked (newinfo.name == c.me.name) c _ h (
      if-holds IsTracked (is_never node.push_state) (schedule_push newinfo.name c2) c2
        (schedule_push-IsTracked newinfo.name c2 h2) h2)
