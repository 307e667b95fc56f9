-- ===== src/Node/Guarded.antt =====
-- What the handlers keep, where the names and the updates that reach a node have a property: all that
-- `UpdateNode` with such a name, `SchedulePush` and the start of a `ReceiveUpdate` of such an update keep.
use dftp.Base.{
  if-holds, ℤ, ◌≡◌, ==_ne, not, ◌||◌, List, [], ◌∷◌, Option, none, some, Text, codes, ◌==◌, text_eq,
  if◌then◌else◌, arith, Outcome, returns, panics, out_of_fuel,
}
use dftp.Base.Assoc.{Assoc, lookup}
use dftp.Cluster.{
  Cluster, NodeInfo, UpdateData, receive, spawn, schedule_push, update_node, known_mgmt_adr,
}
use dftp.Exchange.{
  Answer, info, Ending, normal, panicked, update_nodes, answer_peers, learn, greet_node,
  combine_host_and_port,
}
use dftp.Mgmt.{
  Request, Response, error, ok, http_cluster, greeter, respond_info, hear_greeting, catch_panic,
  accept_greeting, http_join, join_loop, http_update, DiscoveryPing, on_datagram, greet_unknown,
}
use dftp.Node.Names.{
  Names, AnswerNames, AllAnswers, Decoded, OnReturn, answer_peers-Names, greeter-name,
}

module _ (N : Text → Type 0) (U : UpdateData → Type 0) (P : Cluster → Type 0)
    (update_node-keeps : (newinfo : NodeInfo) (c : Cluster)
      → N newinfo.name
      → P c
      → P (update_node newinfo c))
    (schedule_push-keeps : (key : Text) (c : Cluster) → P c → P (schedule_push key c))
    (receive-keeps : (upd : UpdateData) (c : Cluster)
      → U upd
      → P c
      → P (spawn (receive upd) c)) where
  -- The node that a handler leaves has the property.
  abbrev Kept : {A : Type 0} → Cluster × A → Type 0
  Kept r = P r.0

  update_nodes-keeps :
      (peers : Assoc (Option NodeInfo)) (c : Cluster)
      → Names N peers
      → P c
      → P (update_nodes peers c).0
  unfolding update_nodes
  update_nodes-keeps [] c n h = h
  update_nodes-keeps ((key, none) ∷ peers) c n h = h
  update_nodes-keeps ((key, some p) ∷ peers) c n h =
      update_nodes-keeps peers (update_node p c) n.1 (update_node-keeps p c n.0 h)

  learn-keeps :
      (o : Outcome (Assoc (Option NodeInfo))) (c : Cluster)
      → OnReturn (Names N) o
      → P c
      → P (learn o c).0
  learn-keeps (returns peers) c n h = update_nodes-keeps peers c n h
  learn-keeps panics c n h = h
  learn-keeps out_of_fuel c n h = h

  pub greet_node-keeps :
      (addr : Text) (answer : Answer) (now : ℤ) (c : Cluster)
      → AnswerNames N answer
      → P c
      → P (greet_node addr answer now c).0
  unfolding greet_node
  greet_node-keeps addr (info r) now c n h =
      learn-keeps (answer_peers addr now r) c (answer_peers-Names N addr now r n) h
  greet_node-keeps addr _ now c n h = h

  join_step-keeps :
      (answers : Text → Answer) (now : ℤ) (addrs : List Text) (r : Cluster × Ending)
      → ((c : Cluster) → P c → P (join_loop answers now addrs c).0)
      → P r.0
      → P
          (elim r.1 as (λ _. Cluster × Ending) [
            | normal ↦ join_loop answers now addrs r.0
            | panicked ↦ (r.0, panicked)
          ]).0
  join_step-keeps answers now addrs (c, normal) rest h = rest c h
  join_step-keeps answers now addrs (c, panicked) rest h = h

  join_loop-keeps :
      (answers : Text → Answer) (now : ℤ) (addrs : List Text) (c : Cluster)
      → AllAnswers N answers
      → P c
      → P (join_loop answers now addrs c).0
  unfolding join_loop
  join_loop-keeps answers now [] c n h = h
  join_loop-keeps answers now (addr ∷ addrs) c n h =
      join_step-keeps answers now addrs (greet_node addr (answers addr) now c)
        (λ c h. join_loop-keeps answers now addrs c n h)
        (greet_node-keeps addr (answers addr) now c (n addr) h)

  catch_panic-keeps : (r : Cluster × Ending) → P r.0 → P (catch_panic r).0
  catch_panic-keeps (c, normal) h = h
  catch_panic-keeps (c, panicked) h = h

  join_peers-keeps :
      (peers : List Text) (answers : Text → Answer) (now : ℤ) (c : Cluster)
      → AllAnswers N answers
      → P c
      → P
          (elim peers as (λ _. Cluster × Response) [
            | [] ↦ (c, error 400)
            | addr ∷ addrs ↦ catch_panic (join_loop answers now (addr ∷ addrs) c)
          ]).0
  join_peers-keeps [] answers now c n h = h
  join_peers-keeps (addr ∷ addrs) answers now c n h =
      catch_panic-keeps (join_loop answers now (addr ∷ addrs) c)
        (join_loop-keeps answers now (addr ∷ addrs) c n h)

  pub http_join-keeps :
      (r : Request) (answers : Text → Answer) (now : ℤ) (c : Cluster)
      → AllAnswers N answers
      → P c
      → P (http_join r answers now c).0
  unfolding http_join
  http_join-keeps r answers now c n h =
      if-holds Kept (not (r.method == codes "POST")) (c, error 405) _ h
        (join_peers-keeps r.form_peers answers now c n h)

  accept_greeting-keeps :
      (r : Request) (newinfo : NodeInfo) (c : Cluster)
      → N newinfo.name
      → P c
      → P (accept_greeting r newinfo c)
  unfolding accept_greeting
  accept_greeting-keeps r newinfo c n h =
      let k = update_node-keeps newinfo c n h in
      elim (lookup newinfo.name (update_node newinfo c).peers)
        as (λ o. P (
          if r.form_request_full_update == codes "true"
          then (elim o as (λ _. Cluster) [
            | none ↦ update_node newinfo c
            | some node ↦ schedule_push newinfo.name (update_node newinfo c)
          ])
          else update_node newinfo c)) [
            | none ↦ ground (arith, k)
            | some node ↦
                ground (arith, k, schedule_push-keeps newinfo.name (update_node newinfo c) k)
          ]

  greeting-keeps :
      (r : Request) (o : Outcome NodeInfo) (c : Cluster)
      → OnReturn (λ (node : NodeInfo). N node.name) o
      → P c
      → P (catch_panic (hear_greeting r o c)).0
  greeting-keeps r (returns newinfo) c n h = accept_greeting-keeps r newinfo c n h
  greeting-keeps r panics c n h = h
  greeting-keeps r out_of_fuel c n h = h

  pub http_cluster-keeps :
      (r : Request) (c : Cluster)
      → (r.method ≡ codes "POST" → N r.form_name)
      → P c
      → P (http_cluster r c).0
  unfolding http_cluster
  http_cluster-keeps r c n h = elim (text_eq.dec r.method (codes "POST")) [
    | no ne ↦ rw (==_ne r.method (codes "POST") ne) h
    | yes e ↦
        if-holds Kept (r.method == codes "POST") _ (respond_info c)
          (if-holds Kept (r.form_name == [] || r.form_public_addr == [] || r.form_mgmt_addr == [])
            (c, error 400) _ h (greeting-keeps r (greeter r) c (greeter-name N r (n e)) h))
          h
  ]

  decoded-keeps :
      (body : Option UpdateData) (c : Cluster)
      → Decoded U body
      → P c
      → P
          (elim body as (λ _. Cluster × Response) [
            | none ↦ (c, error 400)
            | some upd ↦ (spawn (receive upd) c, ok)
          ]).0
  decoded-keeps none c u h = h
  decoded-keeps (some upd) c u h = receive-keeps upd c u h

  pub http_update-keeps :
      (r : Request) (c : Cluster) → Decoded U r.json_body → P c → P (http_update r c).0
  unfolding http_update
  http_update-keeps r c u h =
      if-holds Kept (not (r.method == codes "POST")) (c, error 405) _ h
        (if-holds Kept (not (r.content_type == codes "application/json")) (c, error 400) _ h
          (decoded-keeps r.json_body c u h))

  greet_unknown-keeps :
      (answers : Text → Answer) (now : ℤ) (c : Cluster) (o : Outcome Text)
      → AllAnswers N answers
      → P c
      → P (greet_unknown answers now c o).0
  greet_unknown-keeps answers now c (returns addr) n h =
      if-holds Kept (not (known_mgmt_adr c addr)) _ (c, normal)
        (greet_node-keeps addr (answers addr) now c (n addr) h) h
  greet_unknown-keeps answers now c panics n h = h
  greet_unknown-keeps answers now c out_of_fuel n h = h

  pub on_datagram-keeps :
      (ping : Option DiscoveryPing) (client_addr : Text) (answers : Text → Answer) (now : ℤ)
      (c : Cluster)
      → AllAnswers N answers
      → P c
      → P (on_datagram ping client_addr answers now c).0
  unfolding on_datagram
  on_datagram-keeps none client_addr answers now c n h = h
  on_datagram-keeps (some ping) client_addr answers now c n h =
      if-holds Kept _ _ (c, normal)
        (greet_unknown-keeps answers now c (combine_host_and_port client_addr ping.mgmt_addr) n h) h
