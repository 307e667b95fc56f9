-- ===== src/Node/Knows.antt =====
-- What a node knows: the names of its peers and the updates that it is still to take in. Where those that
-- reach it have a property, those that it knows have it.
use dftp.Base.{
  ℤ, Bool, List, [], ◌∷◌, ◌++◌, some, Text, codes, text_eq, ◌≡◌, refl, inl, inr, Option-cases,
  returns, All, All-append, All-append_left, All-append_right, subst, sym, arith,
}
use dftp.Base.Assoc.{lookup, Values, insert-Values, lookup-Values}
use dftp.Cluster.{
  Cluster, NodeInfo, UpdateData, Task, greet, push, receive, put_peer, spawn, schedule_push,
  update_node, peer_or_new,
}
use dftp.Cluster.Changes.{schedule_push-keeps_if, update_node-keeps_if}
use dftp.Exchange.{push_full_update, receive_update}
use dftp.Exchange.Receive.{receive_update-cases}
use dftp.Node.{
  with_tasks, Step, serve_cluster, serve_join, serve_update, hear, run_greet, run_push, run_receive,
}
use dftp.Node.Guarded
use dftp.Node.Names.{AnswerNames, AllAnswers, Decoded}

-- The names and the updates that reach the node in the step have the property.
abbrev pub Guard : (Text → Type 0) → (UpdateData → Type 0) → {c d : Cluster} → Step c d → Type 0
Guard N U (serve_cluster r) = r.method ≡ codes "POST" → N r.form_name
Guard N U (serve_join r answers now) = AllAnswers N answers
Guard N U (serve_update r) = Decoded U r.json_body
Guard N U (hear ping addr answers now) = AllAnswers N answers
Guard N U (run_greet before after addr key answer now e) = AnswerNames N answer
Guard N U (run_push before after key accepted now e) = Unit
Guard N U (run_receive before after upd e r) = Unit

abbrev pub TaskUpdate : (UpdateData → Type 0) → Task → Type 0
TaskUpdate U (receive upd) = U upd
TaskUpdate U (greet addr key) = Unit
TaskUpdate U (push key) = Unit

pub record Knows (N : Text → Type 0) (U : UpdateData → Type 0) (c : Cluster) : Type 0 where
  pub names : Values (λ (node : NodeInfo). N node.name) c.peers
  pub updates : All (TaskUpdate U) c.tasks

module _ (N : Text → Type 0) (U : UpdateData → Type 0) where
  abbrev HasName : NodeInfo → Type 0
  HasName node = N node.name

  put_peer-Knows :
      (key : Text) (node : NodeInfo) (c : Cluster)
      → N node.name
      → Knows N U c
      → Knows N U (put_peer key node c)
  put_peer-Knows key node c n h = record {
    names = insert-Values HasName key node c.peers n h.names;
    updates = h.updates;
  }

  rewrites-Knows :
      (key : Text) (old node : NodeInfo) (c : Cluster)
      → lookup key c.peers ≡ some old
      → node.name ≡ old.name
      → Knows N U c
      → Knows N U (put_peer key node c)
  rewrites-Knows key old node c e same h =
      put_peer-Knows key node c (subst N (sym same) (lookup-Values HasName key c.peers e h.names)) h

  peer_or_new-name : (key : Text) (c : Cluster) → N key → Knows N U c → N (peer_or_new c key).name
  peer_or_new-name key c n h = elim (Option-cases (lookup key c.peers)) [
    | inl e ↦ rw (e, peer_or_new) n
    | inr (node, e) ↦ rw (e, peer_or_new) (lookup-Values HasName key c.peers e h.names)
  ]

  start-Knows : (t : Task) (c : Cluster) → TaskUpdate U t → Knows N U c → Knows N U (spawn t c)
  start-Knows t c u h = record {
    names = h.names;
    updates = All-append (TaskUpdate U) c.tasks (t ∷ []) h.updates (u, tt);
  }

  drop-Knows :
      (before after : List Task) (t : Task) (c : Cluster)
      → c.tasks ≡ before ++ t ∷ after
      → Knows N U c
      → Knows N U (with_tasks (before ++ after) c) × TaskUpdate U t
  drop-Knows before after t c e h =
      let all : All (TaskUpdate U) (before ++ t ∷ after) = rw e at h.updates in
      let rest = All-append_right (TaskUpdate U) before (t ∷ after) all in
      (
        record {
          names = h.names;
          updates =
              All-append (TaskUpdate U) before after
                (All-append_left (TaskUpdate U) before (t ∷ after) all) rest.1;
        },
        rest.0,
      )

  update_node-Knows :
      (newinfo : NodeInfo) (c : Cluster)
      → N newinfo.name
      → Knows N U c
      → Knows N U (update_node newinfo c)
  update_node-Knows newinfo c n h =
      update_node-keeps_if (Knows N U) rewrites-Knows (λ addr key c. start-Knows _ c tt)
        (λ key c. start-Knows _ c tt) newinfo c
        (λ ne. put_peer-Knows newinfo.name _ c (peer_or_new-name newinfo.name c n h) h) h

  schedule_push-Knows : (key : Text) (c : Cluster) → Knows N U c → Knows N U (schedule_push key c)
  schedule_push-Knows =
      schedule_push-keeps_if (Knows N U) rewrites-Knows (λ addr key c. start-Knows _ c tt)
        (λ key c. start-Knows _ c tt)

  receive-Knows :
      (upd : UpdateData) (c : Cluster) → U upd → Knows N U c → Knows N U (spawn (receive upd) c)
  receive-Knows upd c = start-Knows (receive upd) c

  push_full_update-Knows :
      (key : Text) (accepted : Bool) (now : ℤ) (c : Cluster)
      → Knows N U c
      → Knows N U (push_full_update key accepted now c)
  unfolding push_full_update
  push_full_update-Knows key accepted now c h = elim (Option-cases (lookup key c.peers)) [
    | inl e ↦ rw (e, push_full_update) h
    | inr (node, e) ↦ rw (e, push_full_update) (rewrites-Knows key node _ c e (ground arith) h)
  ]

  receive_update-Knows :
      (upd : UpdateData) (c c' : Cluster)
      → receive_update upd c ≡ returns c'
      → Knows N U c
      → Knows N U c'
  receive_update-Knows upd c c' e h = elim (receive_update-cases upd c c' e) [
    | inl (unknown, same) ↦ rw same h
    | inr a ↦ rw a.result (
        rewrites-Knows upd.sender_node_name a.node _ (record c { dfs_root = a.root }) a.known refl
          (record { names = h.names; updates = h.updates }))
  ]

  -- A step leaves the node with names and updates that it had, or that have reached it.
  pub Step-Knows : {c d : Cluster} (s : Step c d) → Guard N U s → Knows N U c → Knows N U d
  Step-Knows {c} (serve_cluster r) g h =
      Guarded.http_cluster-keeps N U (Knows N U) update_node-Knows schedule_push-Knows receive-Knows
        r c g h
  Step-Knows {c} (serve_join r answers now) g h =
      Guarded.http_join-keeps N U (Knows N U) update_node-Knows schedule_push-Knows receive-Knows r
        answers now c g h
  Step-Knows {c} (serve_update r) g h =
      Guarded.http_update-keeps N U (Knows N U) update_node-Knows schedule_push-Knows receive-Knows
        r c g h
  Step-Knows {c} (hear ping addr answers now) g h =
      Guarded.on_datagram-keeps N U (Knows N U) update_node-Knows schedule_push-Knows receive-Knows
        ping addr answers now c g h
  Step-Knows {c} (run_greet before after addr key answer now e) g h =
      Guarded.greet_node-keeps N U (Knows N U) update_node-Knows schedule_push-Knows receive-Knows
        addr answer now (with_tasks (before ++ after) c) g (drop-Knows before after _ c e h).0
  Step-Knows {c} (run_push before after key accepted now e) g h =
      push_full_update-Knows key accepted now (with_tasks (before ++ after) c)
        (drop-Knows before after _ c e h).0
  Step-Knows {c} (run_receive before after upd e r) g h =
      receive_update-Knows upd (with_tasks (before ++ after) c) _ r
        (drop-Knows before after _ c e h).0
