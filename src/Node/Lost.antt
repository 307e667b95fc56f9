-- ===== src/Node/Lost.antt =====
-- A greeting that fails.
use dftp.Base.{
  ℤ, ◌≤◌, Bool, true, false, List, [], ◌∷◌, ◌++◌, Option, none, some, Text, ◌==◌, text_eq,
  if◌then◌else◌, ◌≡◌, refl, arith, ap, ==_refl,
}
use dftp.Base.Assoc.{lookup, lookup-insert}
use dftp.Fat.{TreeNode}
use dftp.LocalFs.{LocalFs}
use dftp.Cluster.{
  Cluster, NodeInfo, Task, greet, push, receive, pending, never, done, new_cluster, is_never,
  put_peer, peer_or_new, refresh, schedule_greet, schedule_push, update_node,
}
use dftp.Exchange.{Answer, unreachable, bad_status, bad_body, info, greet_node, push_full_update}
use dftp.Exchange.Receive.{stamped}
use dftp.Node.{with_tasks, Reach}
use dftp.Node.Tasks.{is_greet, count, count-append, greeting, IsTracked}
use dftp.Node.Tracked.{new_cluster-IsTracked}
use dftp.Node.Steps.{Keeps, Reach-keeps}

-- No greeting of the peer is to run, and it counts as greeted or being greeted.
abbrev Lost : Text → Cluster → Type 0
Lost k c = (count (is_greet k) c.tasks ≡ 0) × (greeting (lookup k c.peers) ≡ 1)

module _ (key k : Text) (c : Cluster) where
  schedule_push-Lost :
      (o : Option NodeInfo) → lookup key c.peers ≡ o → Lost k c → Lost k (schedule_push key c)
  unfolding schedule_push
  schedule_push-Lost none e h = ground arith
  schedule_push-Lost (some node) e h = ground (
    arith,
    count-append (is_greet k) c.tasks (push key ∷ []),
    lookup-insert key k (record node { push_state = pending }) c.peers,
  )

  schedule_greet-Lost :
      (o : Option NodeInfo) → lookup key c.peers ≡ o → Lost k c → Lost k (schedule_greet key c)
  unfolding schedule_greet
  schedule_greet-Lost none e h = ground arith
  schedule_greet-Lost (some node) e h = ground (
    arith,
    count-append (is_greet k) c.tasks (greet node.mgmt_addr key ∷ []),
    lookup-insert key k (record node { greet_state = pending }) c.peers,
  )

  put_peer-Lost :
      (node : NodeInfo)
      → greeting (lookup key c.peers) ≤ greeting (some node)
      → Lost k c
      → Lost k (put_peer key node c)
  put_peer-Lost node more h = ground (arith, lookup-insert key k node c.peers)

refresh-more :
    (newinfo : NodeInfo) (c : Cluster) (key : Text)
    → greeting (lookup key c.peers) ≤ greeting (some (refresh newinfo (peer_or_new c key)))
refresh-more newinfo c key = ground arith

if-Lost : (k : Text) (b : Bool) (c d : Cluster) → Lost k c → Lost k d → Lost k (if b then c else d)
if-Lost k true c d h h' = h
if-Lost k false c d h h' = h'

update_node-Lost :
    (k : Text) (newinfo : NodeInfo) (c : Cluster) → Lost k c → Lost k (update_node newinfo c)
unfolding update_node
update_node-Lost k newinfo c h =
    let key = newinfo.name in
    let node = refresh newinfo (peer_or_new c key) in
    let c1 = put_peer key node c in
    let c2 = if is_never node.greet_state then schedule_greet key c1 else c1 in
    let h1 = put_peer-Lost key k c node (refresh-more newinfo c key) h in
    let h2 =
      if-Lost k (is_never node.greet_state) (schedule_greet key c1) c1
        (schedule_greet-Lost key k c1 (lookup key c1.peers) refl h1) h1 in
    if-Lost k (key == c.me.name) c _ h (
      if-Lost k (is_never node.push_state) (schedule_push key c2) c2
        (schedule_push-Lost key k c2 (lookup key c2.peers) refl h2) h2)

pushed-Lost :
    (k key : Text) (accepted : Bool) (now : ℤ) (c : Cluster) (o : Option NodeInfo)
    → lookup key c.peers ≡ o
    → Lost k c
    → Lost k (push_full_update key accepted now c)
unfolding push_full_update
pushed-Lost k key accepted now c none e h = ground arith
pushed-Lost k key accepted now c (some node) e h = ground (
  arith,
  lookup-insert key k
      (if accepted
        then record node { push_state = done; last_update_pushed = now }
        else record node { push_state = never })
      c.peers,
)

Lost-Keeps : (k : Text) → Keeps (Lost k)
Lost-Keeps k = record {
  meets = update_node-Lost k;
  schedules = λ key c h. schedule_push-Lost key k c (lookup key c.peers) refl h;
  starts =
      λ upd c h. (omega (arith, count-append (is_greet k) c.tasks (receive upd ∷ []), h.0), h.1);
  drops = λ before after t c e h. (
    omega (
      arith,
      count-append (is_greet k) before (t ∷ after),
      count-append (is_greet k) before after,
      ap (count (is_greet k)) e,
      h.0,
    ),
    h.1,
  );
  pushes = λ key accepted now c h. pushed-Lost k key accepted now c (lookup key c.peers) refl h;
  applies = λ upd node root c e h.
      put_peer-Lost upd.sender_node_name k (record c { dfs_root = root }) (stamped upd node)
        (ground arith) h;
}

-- The greeting got no cluster info.
abbrev pub has_failed : Answer → Bool
has_failed (info r) = false
has_failed _ = true

failed-same :
    (addr : Text) (answer : Answer) (now : ℤ) (c : Cluster)
    → has_failed answer ≡ true
    → (greet_node addr answer now c).0 ≡ c
unfolding greet_node
failed-same addr unreachable now c e = refl
failed-same addr (bad_status n) now c e = refl
failed-same addr bad_body now c e = refl
failed-same addr (info r) now c e = cc

removed-Lost :
    (before after : List Task) (addr key : Text) (c : Cluster)
    → IsTracked c
    → c.tasks ≡ before ++ greet addr key ∷ after
    → Lost key (with_tasks (before ++ after) c)
removed-Lost before after addr key c h e =
    let le = h.greets key in
    (
      ground (
        arith,
        ==_refl key,
        count-append (is_greet key) before (greet addr key ∷ after),
        count-append (is_greet key) before after,
        ap (count (is_greet key)) e,
      ),
      ground (
        arith,
        ==_refl key,
        count-append (is_greet key) before (greet addr key ∷ after),
        ap (count (is_greet key)) e,
      ),
    )

-- A scheduled greeting that fails is lost: whatever a new node has reached before it, and whatever it
-- reaches after it, no greeting of that peer is scheduled to run again.
pub greeting_lost :
    (root : TreeNode) (fs : LocalFs) (name public_addr mgmt_addr : Text) (start : ℤ) (c d : Cluster)
    (before after : List Task) (addr key : Text) (answer : Answer) (now : ℤ)
    → Reach (new_cluster root fs name public_addr mgmt_addr start) c
    → c.tasks ≡ before ++ greet addr key ∷ after
    → has_failed answer ≡ true
    → Reach (greet_node addr answer now (with_tasks (before ++ after) c)).0 d
    → count (is_greet key) d.tasks ≡ 0
greeting_lost root fs name public_addr mgmt_addr start c d before after addr key answer now r e f
      r' =
    let tracked = new_cluster-IsTracked root fs name public_addr mgmt_addr start r in
    let same = failed-same addr answer now (with_tasks (before ++ after) c) f in
    (Reach-keeps (Lost key) (Lost-Keeps key) r'
      (rw same (removed-Lost before after addr key c tracked e))).0
