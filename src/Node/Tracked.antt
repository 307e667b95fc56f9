-- ===== src/Node/Tracked.antt =====
-- Every step keeps track of the pushes and the greetings of each peer.
use dftp.Base.{
  ℤ, ◌+◌, Bool, false, List, [], ◌∷◌, ◌++◌, Option, none, some, Text, text_eq, if◌then◌else◌, ◌≡◌,
  refl, arith, returns, inl, inr, ap, ==_refl,
}
use dftp.Base.Assoc.{lookup, lookup-insert}
use dftp.Fat.{TreeNode}
use dftp.LocalFs.{LocalFs}
use dftp.Cluster.{
  Cluster, new_cluster, NodeInfo, UpdateData, Task, push, receive, spawn, never, done,
}
use dftp.Exchange.{push_full_update, receive_update}
use dftp.Exchange.Receive.{stamped, receive_update-cases}
use native.Mathlib.Nat.{le_refl}
use dftp.Node.{
  with_tasks, Step, serve_cluster, serve_join, serve_update, hear, run_greet, run_push, run_receive,
  Reach, here, next,
}
use dftp.Node.Tasks.{
  is_push, is_greet, count, count-append, PushTracked, GreetTracked, IsTracked,
  schedule_push-IsTracked, put_peer-IsTracked, update_node-IsTracked,
}
use dftp.Node.Handlers

receive-IsTracked :
    (upd : UpdateData) (c : Cluster) → IsTracked c → IsTracked (spawn (receive upd) c)
receive-IsTracked upd c h = record {
  pushes = λ k. omega (arith, count-append (is_push k) c.tasks (receive upd ∷ []), h.pushes k);
  greets = λ k. omega (arith, count-append (is_greet k) c.tasks (receive upd ∷ []), h.greets k);
}

count-remove :
    (p : Task → Bool) (before after : List Task) (t : Task)
    → count p (before ++ t ∷ after) ≡ (if p t then 1 else 0) + count p (before ++ after)
count-remove p before after t =
    omega (arith, count-append p before (t ∷ after), count-append p before after)

module _ (before after : List Task) (t : Task) (c : Cluster)
    (e : c.tasks ≡ before ++ t ∷ after) where
  -- Removing a call that is no push.
  drop-IsTracked :
      ((key : Text) → is_push key t ≡ false)
      → IsTracked c
      → IsTracked (with_tasks (before ++ after) c)
  drop-IsTracked no_push h = record {
    pushes = λ k. ground (
      arith,
      no_push k,
      count-remove (is_push k) before after t,
      ap (count (is_push k)) e,
      h.pushes k,
    );
    greets = λ k.
        ground
          (arith, count-remove (is_greet k) before after t, ap (count (is_greet k)) e, h.greets k);
  }

module _ (before after : List Task) (key : Text) (c : Cluster)
    (e : c.tasks ≡ before ++ push key ∷ after) where
  finish-tracked :
      (k : Text) (o : Option NodeInfo) (accepted : Bool) (now : ℤ)
      → lookup key c.peers ≡ o
      → PushTracked c key
      → PushTracked c k
      → GreetTracked c k
      → PushTracked (push_full_update key accepted now (with_tasks (before ++ after) c)) k
        × GreetTracked (push_full_update key accepted now (with_tasks (before ++ after) c)) k
  unfolding push_full_update
  finish-tracked k none accepted now f q p g = absurd (
      ground (
        arith,
        ==_refl key,
        count-remove (is_push key) before after (push key),
        ap (count (is_push key)) e,
      ))
  finish-tracked k (some node) accepted now f q p g = ground (
    arith,
    ==_refl key,
    count-remove (is_push k) before after (push key),
    ap (count (is_push k)) e,
    count-remove (is_greet k) before after (push key),
    ap (count (is_greet k)) e,
    lookup-insert key k
        (if accepted
          then record node { push_state = done; last_update_pushed = now }
          else record node { push_state = never })
        c.peers,
  )

  -- A push that has run is no longer pending.
  finish-IsTracked :
      (accepted : Bool) (now : ℤ)
      → IsTracked c
      → IsTracked (push_full_update key accepted now (with_tasks (before ++ after) c))
  finish-IsTracked accepted now h = record {
    pushes = λ k.
        (finish-tracked k (lookup key c.peers) accepted now refl (h.pushes key) (h.pushes k)
          (h.greets k)).0;
    greets = λ k.
        (finish-tracked k (lookup key c.peers) accepted now refl (h.pushes key) (h.pushes k)
          (h.greets k)).1;
  }

receive_update-IsTracked :
    (upd : UpdateData) (c c' : Cluster)
    → receive_update upd c ≡ returns c'
    → IsTracked c
    → IsTracked c'
receive_update-IsTracked upd c c' e h = elim (receive_update-cases upd c c' e) [
  | inl (k, same) ↦ rw same h
  | inr a ↦ rw a.result (
      put_peer-IsTracked upd.sender_node_name (stamped upd a.node) (record c { dfs_root = a.root })
        (rw a.known) (rw a.known (le_refl _)) (record { pushes = h.pushes; greets = h.greets }))
]

pub Step-IsTracked : {c c' : Cluster} → Step c c' → IsTracked c → IsTracked c'
Step-IsTracked {c} (serve_cluster r) h =
    Handlers.http_cluster-keeps IsTracked update_node-IsTracked schedule_push-IsTracked
      receive-IsTracked r c h
Step-IsTracked {c} (serve_join r answers now) h =
    Handlers.http_join-keeps IsTracked update_node-IsTracked schedule_push-IsTracked
      receive-IsTracked r answers now c h
Step-IsTracked {c} (serve_update r) h =
    Handlers.http_update-keeps IsTracked update_node-IsTracked schedule_push-IsTracked
      receive-IsTracked r c h
Step-IsTracked {c} (hear ping addr answers now) h =
    Handlers.on_datagram-keeps IsTracked update_node-IsTracked schedule_push-IsTracked
      receive-IsTracked ping addr answers now c h
Step-IsTracked {c} (run_greet before after addr key answer now e) h =
    Handlers.greet_node-keeps IsTracked update_node-IsTracked schedule_push-IsTracked
      receive-IsTracked addr answer now (with_tasks (before ++ after) c)
      (drop-IsTracked before after _ c e (λ k. refl) h)
Step-IsTracked {c} (run_push before after key accepted now e) h =
    finish-IsTracked before after key c e accepted now h
Step-IsTracked {c} (run_receive before after upd e r) h =
    receive_update-IsTracked upd (with_tasks (before ++ after) c) _ r
      (drop-IsTracked before after _ c e (λ k. refl) h)

pub Reach-IsTracked : {c c' : Cluster} → IsTracked c → Reach c c' → IsTracked c'
Reach-IsTracked h here = h
Reach-IsTracked h (next r s) = Step-IsTracked s (Reach-IsTracked h r)

-- Whatever reaches a new node, in any order: for each peer, the pushes that are still to run are one
-- while its push is pending and none otherwise, and at most one scheduled greeting is still to run,
-- none if the peer's greeting was never scheduled.
pub new_cluster-IsTracked :
    (root : TreeNode) (fs : LocalFs) (name public_addr mgmt_addr : Text) (now : ℤ) {c : Cluster}
    → Reach (new_cluster root fs name public_addr mgmt_addr now) c
    → IsTracked c
unfolding new_cluster lookup
new_cluster-IsTracked root fs name public_addr mgmt_addr now r =
    Reach-IsTracked (record { pushes = λ k. refl; greets = λ k. omega arith }) r
