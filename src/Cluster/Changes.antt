-- ===== src/Cluster/Changes.antt =====
-- What `ScheduleGreet`, `SchedulePush` and `UpdateNode` keep: all that a write of a peer's record and the
-- start of a call keep.
use dftp.Base.{
  not, if-holds, Text, some, ◌==◌, text_eq, if◌then◌else◌, ◌≡◌, ◌≢◌, inl, inr, Option-cases, refl,
  ==_refl,
}
use dftp.Base.Assoc.{lookup}
use dftp.Cluster.{
  Cluster, NodeInfo, Task, greet, push, put_peer, spawn, peer_or_new, refresh, is_never, is_pending,
  schedule_greet, schedule_push, update_node,
}

-- `UpdateNode` may write the record of a node that is no peer yet; the other two write a peer's record
-- again, under its name.
module _ (P : Cluster → Type 0)
    (rewrites : (key : Text) (old node : NodeInfo) (c : Cluster)
      → lookup key c.peers ≡ some old
      → node.name ≡ old.name
      → P c
      → P (put_peer key node c))
    (greets : (addr key : Text) (c : Cluster) → P c → P (spawn (greet addr key) c))
    (pushes : (key : Text) (c : Cluster) → P c → P (spawn (push key) c)) where
  pub schedule_push-keeps_if : (key : Text) (c : Cluster) → P c → P (schedule_push key c)
  unfolding schedule_push
  schedule_push-keeps_if key c h = elim (Option-cases (lookup key c.peers)) [
    | inl e ↦ rw (e, schedule_push) h
    | inr (node, e) ↦
        rw (e, schedule_push)
          (if-holds P (is_pending node.push_state) c _ h
            (pushes _ _ (rewrites key node _ c e refl h)))
  ]

  pub schedule_greet-keeps_if : (key : Text) (c : Cluster) → P c → P (schedule_greet key c)
  unfolding schedule_greet
  schedule_greet-keeps_if key c h = elim (Option-cases (lookup key c.peers)) [
    | inl e ↦ rw (e, schedule_greet) h
    | inr (node, e) ↦
        rw (e, schedule_greet)
          (if-holds P (not (is_never node.greet_state)) c _ h
            (greets _ _ _ (rewrites key node _ c e refl h)))
  ]

  pub update_node-keeps_if :
      (newinfo : NodeInfo) (c : Cluster)
      → (newinfo.name ≢ c.me.name
          → P (put_peer newinfo.name (refresh newinfo (peer_or_new c newinfo.name)) c))
      → P c
      → P (update_node newinfo c)
  unfolding update_node
  update_node-keeps_if newinfo c meets h = elim (text_eq.dec newinfo.name c.me.name) [
    | yes e ↦ rw (e, ==_refl) h
    | no ne ↦
        let node = refresh newinfo (peer_or_new c newinfo.name) in
        let c1 = put_peer newinfo.name node c in
        let c2 = if is_never node.greet_state then schedule_greet newinfo.name c1 else c1 in
        let h1 = meets ne in
        let h2 =
          if-holds P (is_never node.greet_state) (schedule_greet newinfo.name c1) c1
            (schedule_greet-keeps_if newinfo.name c1 h1) h1 in
        if-holds P (newinfo.name == c.me.name) c _ h (
          if-holds P (is_never node.push_state) (schedule_push newinfo.name c2) c2
            (schedule_push-keeps_if newinfo.name c2 h2) h2)
  ]

module _ (P : Cluster → Type 0)
    (writes : (key : Text) (node : NodeInfo) (c : Cluster) → P c → P (put_peer key node c))
    (starts : (t : Task) (c : Cluster) → P c → P (spawn t c)) where
  pub schedule_push-keeps : (key : Text) (c : Cluster) → P c → P (schedule_push key c)
  schedule_push-keeps =
      schedule_push-keeps_if P (λ key old node c e n. writes key node c)
        (λ addr key. starts (greet addr key)) (λ key. starts (push key))

  pub update_node-keeps : (newinfo : NodeInfo) (c : Cluster) → P c → P (update_node newinfo c)
  update_node-keeps newinfo c h =
      update_node-keeps_if P (λ key old node c e n. writes key node c)
        (λ addr key. starts (greet addr key)) (λ key. starts (push key)) newinfo c
        (λ ne. writes _ _ c h) h
