-- ===== src/Node/Named.antt =====
-- Every step keeps the names of the peers.
use dftp.Base.{
  ℤ, Bool, List, [], ◌∷◌, ◌++◌, none, some, Text, text_eq, ◌≡◌, ◌≢◌, refl, arith, inl, inr,
  Option-cases, sym, ap, ◌∙◌,
}
use dftp.Base.Assoc.{lookup, lookup-insert}
use dftp.Fat.{TreeNode}
use dftp.LocalFs.{LocalFs}
use dftp.Cluster.{
  Cluster, new_cluster, NodeInfo, UpdateData, Task, receive, put_peer, spawn, schedule_push,
  update_node, refresh, peer_or_new,
}
use dftp.Cluster.Changes.{schedule_push-keeps_if, update_node-keeps_if}
use dftp.Exchange.{push_full_update}
use dftp.Exchange.Receive.{stamped}
use dftp.Node.{with_tasks, Reach}
use dftp.Node.Steps.{Keeps, Reach-keeps}

abbrev pub KeyNamed : Cluster → Text → Type 0
KeyNamed c key = (node : NodeInfo) → lookup key c.peers ≡ some node → node.name ≡ key

-- The node's own record and directory are as they were, it is not one of its peers, and each peer's
-- record has the name under which it is kept.
pub record IsNamed (self : NodeInfo) (fs : LocalFs) (c : Cluster) : Type 0 where
  pub same_me : c.me ≡ self
  pub same_fs : c.local_fs ≡ fs
  pub not_me : lookup self.name c.peers ≡ none
  pub names : (key : Text) → KeyNamed c key

module _ (self : NodeInfo) (fs : LocalFs) where
  -- Writing the record of a name that is not the node's own.
  put_peer-IsNamed :
      (key : Text) (node : NodeInfo) (c : Cluster)
      → key ≢ self.name
      → node.name ≡ key
      → IsNamed self fs c
      → IsNamed self fs (put_peer key node c)
  put_peer-IsNamed key node c ne e h = record {
    same_me = h.same_me;
    same_fs = h.same_fs;
    not_me = ground (arith, lookup-insert key self.name node c.peers, h.not_me);
    names = λ k found p. ground (arith, lookup-insert key k node c.peers, h.names k found);
  }

  not-key :
      (key : Text) (node : NodeInfo) (c : Cluster)
      → IsNamed self fs c
      → lookup key c.peers ≡ some node
      → key ≢ self.name
  not-key key node c h p e = cc (h.not_me)

  spawn-IsNamed :
      (ts : List Task) (c : Cluster) → IsNamed self fs c → IsNamed self fs (with_tasks ts c)
  spawn-IsNamed ts c h = record {
    same_me = h.same_me;
    same_fs = h.same_fs;
    not_me = h.not_me;
    names = h.names;
  }

  -- Writing the record of a peer again.
  rewrites-IsNamed :
      (key : Text) (old node : NodeInfo) (c : Cluster)
      → lookup key c.peers ≡ some old
      → node.name ≡ old.name
      → IsNamed self fs c
      → IsNamed self fs (put_peer key node c)
  rewrites-IsNamed key old node c e n h =
      put_peer-IsNamed key node c (not-key key old c h e) (n ∙ h.names key old e) h

  schedule_push-IsNamed :
      (key : Text) (c : Cluster) → IsNamed self fs c → IsNamed self fs (schedule_push key c)
  schedule_push-IsNamed =
      schedule_push-keeps_if (IsNamed self fs) rewrites-IsNamed (λ addr key c. spawn-IsNamed _ c)
        (λ key c. spawn-IsNamed _ c)

  refresh-name :
      (newinfo : NodeInfo) (c : Cluster)
      → IsNamed self fs c
      → (refresh newinfo (peer_or_new c newinfo.name)).name ≡ newinfo.name
  refresh-name newinfo c h = elim (Option-cases (lookup newinfo.name c.peers)) [
    | inl e ↦ ground arith
    | inr (node, e) ↦ ground (arith, h.names newinfo.name node e)
  ]

  update_node-IsNamed :
      (newinfo : NodeInfo) (c : Cluster)
      → IsNamed self fs c
      → IsNamed self fs (update_node newinfo c)
  update_node-IsNamed newinfo c h =
      update_node-keeps_if (IsNamed self fs) rewrites-IsNamed (λ addr key c. spawn-IsNamed _ c)
        (λ key c. spawn-IsNamed _ c) newinfo c
        (λ ne.
          put_peer-IsNamed newinfo.name _ c
            (λ q. ne (q ∙ sym (ap (λ (n : NodeInfo). n.name) h.same_me))) (refresh-name newinfo c h)
            h)
        h

  receive-IsNamed :
      (upd : UpdateData) (c : Cluster) → IsNamed self fs c → IsNamed self fs (spawn (receive upd) c)
  receive-IsNamed upd c h = spawn-IsNamed (c.tasks ++ receive upd ∷ []) c h

  push_full_update-IsNamed :
      (key : Text) (accepted : Bool) (now : ℤ) (c : Cluster)
      → IsNamed self fs c
      → IsNamed self fs (push_full_update key accepted now c)
  unfolding push_full_update
  push_full_update-IsNamed key accepted now c h = elim (Option-cases (lookup key c.peers)) [
    | inl e ↦ rw (e, push_full_update) h
    | inr (node, e) ↦ rw (e, push_full_update) (rewrites-IsNamed key node _ c e (ground arith) h)
  ]

  IsNamed-Keeps : Keeps (IsNamed self fs)
  IsNamed-Keeps = record {
    meets = update_node-IsNamed;
    schedules = schedule_push-IsNamed;
    starts = receive-IsNamed;
    drops = λ before after t c e h. spawn-IsNamed (before ++ after) c h;
    pushes = push_full_update-IsNamed;
    applies = λ upd node root c e h.
        put_peer-IsNamed upd.sender_node_name (stamped upd node) (record c { dfs_root = root })
          (not-key upd.sender_node_name node c h e) (h.names upd.sender_node_name node e)
          (record { same_me = h.same_me; same_fs = h.same_fs; not_me = h.not_me; names = h.names });
  }

  pub Reach-IsNamed : {c c' : Cluster} → IsNamed self fs c → Reach c c' → IsNamed self fs c'
  Reach-IsNamed h r = Reach-keeps (IsNamed self fs) IsNamed-Keeps r h

-- Whatever reaches a new node, in any order: its own record and its directory stay as they were, it
-- never becomes one of its own peers, and each peer's record has the name under which it is kept.
pub new_cluster-IsNamed :
    (root : TreeNode) (fs : LocalFs) (name public_addr mgmt_addr : Text) (now : ℤ) {c : Cluster}
    → Reach (new_cluster root fs name public_addr mgmt_addr now) c
    → IsNamed (new_cluster root fs name public_addr mgmt_addr now).me fs c
unfolding new_cluster lookup
new_cluster-IsNamed root fs name public_addr mgmt_addr now r =
    Reach-IsNamed _ fs
      (record { same_me = refl; same_fs = refl; not_me = refl; names = λ k node p. cc }) r
