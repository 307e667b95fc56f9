-- ===== src/Node/Steps.antt =====
-- What every step of a node keeps: all that the changes below keep.
use dftp.Base.{ℤ, Bool, List, ◌∷◌, ◌++◌, some, Text, ◌≡◌, inl, inr, returns}
use dftp.Base.Assoc.{lookup}
use dftp.Fat.{TreeNode}
use dftp.Cluster.{
  Cluster, NodeInfo, UpdateData, Task, receive, put_peer, spawn, schedule_push, update_node,
}
use dftp.Exchange.{push_full_update, receive_update}
use dftp.Exchange.Receive.{stamped, receive_update-cases}
use dftp.Node.{
  with_tasks, Step, serve_cluster, serve_join, serve_update, hear, run_greet, run_push, run_receive,
  Reach, here, next,
}
use dftp.Node.Handlers

-- Each of the changes that steps are made of keeps the property: `UpdateNode`, `SchedulePush`, the start
-- of a call of `ReceiveUpdate`, the removal of a call that runs, the end of a push, and an update
-- that is applied.
pub record Keeps (P : Cluster → Type 0) : Type 0 where
  pub meets : (newinfo : NodeInfo) (c : Cluster) → P c → P (update_node newinfo c)
  pub schedules : (key : Text) (c : Cluster) → P c → P (schedule_push key c)
  pub starts : (upd : UpdateData) (c : Cluster) → P c → P (spawn (receive upd) c)
  pub drops :
      (before after : List Task) (t : Task) (c : Cluster)
      → c.tasks ≡ before ++ t ∷ after
      → P c
      → P (with_tasks (before ++ after) c)
  pub pushes :
      (key : Text) (accepted : Bool) (now : ℤ) (c : Cluster)
      → P c
      → P (push_full_update key accepted now c)
  pub applies :
      (upd : UpdateData) (node : NodeInfo) (root : TreeNode) (c : Cluster)
      → lookup upd.sender_node_name c.peers ≡ some node
      → P c
      → P (put_peer upd.sender_node_name (stamped upd node) (record c { dfs_root = root }))

module _ (P : Cluster → Type 0) (k : Keeps P) where
  received-keeps :
      (upd : UpdateData) (c c' : Cluster) → receive_update upd c ≡ returns c' → P c → P c'
  received-keeps upd c c' e h = elim (receive_update-cases upd c c' e) [
    | inl (u, same) ↦ rw same h
    | inr a ↦ rw a.result (k.applies upd a.node a.root c a.known h)
  ]

  pub Step-keeps : {c c' : Cluster} → Step c c' → P c → P c'
  Step-keeps {c} (serve_cluster r) h =
      Handlers.http_cluster-keeps P k.meets k.schedules k.starts r c h
  Step-keeps {c} (serve_join r answers now) h =
      Handlers.http_join-keeps P k.meets k.schedules k.starts r answers now c h
  Step-keeps {c} (serve_update r) h =
      Handlers.http_update-keeps P k.meets k.schedules k.starts r c h
  Step-keeps {c} (hear ping addr answers now) h =
      Handlers.on_datagram-keeps P k.meets k.schedules k.starts ping addr answers now c h
  Step-keeps {c} (run_greet before after addr key answer now e) h =
      Handlers.greet_node-keeps P k.meets k.schedules k.starts addr answer now
        (with_tasks (before ++ after) c) (k.drops before after _ c e h)
  Step-keeps {c} (run_push before after key accepted now e) h =
      k.pushes key accepted now (with_tasks (before ++ after) c) (k.drops before after _ c e h)
  Step-keeps {c} (run_receive before after upd e r) h =
      received-keeps upd (with_tasks (before ++ after) c) _ r (k.drops before after _ c e h)

  pub Reach-keeps : {c c' : Cluster} → Reach c c' → P c → P c'
  Reach-keeps here h = h
  Reach-keeps (next r s) h = Step-keeps s (Reach-keeps r h)
