-- ===== src/Node/Handlers.antt =====
-- What the handlers keep, whatever reaches a node: all that `UpdateNode`, `SchedulePush` and the start of
-- a `ReceiveUpdate` keep.
use dftp.Base.{ℤ, [], ◌∷◌, Option, none, some, Text}
use dftp.Base.Assoc.{Assoc}
use dftp.Cluster.{Cluster, NodeInfo, UpdateData, receive, spawn, schedule_push, update_node}
use dftp.Exchange.{Answer, info, greet_node}
use dftp.Mgmt.{Request, http_cluster, http_join, http_update, DiscoveryPing, on_datagram}
use dftp.Node.Guarded
use dftp.Node.Names.{Names, OwnName, PeerNames, AnswerNames, Decoded}

-- Any name and any update will do.
abbrev AnyName : Text → Type 0
AnyName name = Unit

abbrev AnyUpdate : UpdateData → Type 0
AnyUpdate upd = Unit

any-Names : (peers : Assoc (Option NodeInfo)) → Names AnyName peers
any-Names [] = tt
any-Names ((key, none) ∷ peers) = any-Names peers
any-Names ((key, some node) ∷ peers) = (tt, any-Names peers)

any-OwnName : (o : Option NodeInfo) → OwnName AnyName o
any-OwnName none = tt
any-OwnName (some node) = tt

any-PeerNames : (o : Option (Assoc (Option NodeInfo))) → PeerNames AnyName o
any-PeerNames none = tt
any-PeerNames (some peers) = any-Names peers

any-AnswerNames : (answer : Answer) → AnswerNames AnyName answer
any-AnswerNames (info r) = (any-OwnName r.me, any-PeerNames r.peers)
any-AnswerNames _ = tt

any-Decoded : (body : Option UpdateData) → Decoded AnyUpdate body
any-Decoded none = tt
any-Decoded (some upd) = tt

module _ (P : Cluster → Type 0)
    (update_node-keeps : (newinfo : NodeInfo) (c : Cluster) → P c → P (update_node newinfo c))
    (schedule_push-keeps : (key : Text) (c : Cluster) → P c → P (schedule_push key c))
    (receive-keeps : (upd : UpdateData) (c : Cluster) → P c → P (spawn (receive upd) c)) where
  pub greet_node-keeps :
      (addr : Text) (answer : Answer) (now : ℤ) (c : Cluster)
      → P c
      → P (greet_node addr answer now c).0
  greet_node-keeps addr answer now c =
      Guarded.greet_node-keeps AnyName AnyUpdate P (λ newinfo d n. update_node-keeps newinfo d)
        schedule_push-keeps (λ upd d u. receive-keeps upd d) addr answer now c
        (any-AnswerNames answer)

  pub http_join-keeps :
      (r : Request) (answers : Text → Answer) (now : ℤ) (c : Cluster)
      → P c
      → P (http_join r answers now c).0
  http_join-keeps r answers now c =
      Guarded.http_join-keeps AnyName AnyUpdate P (λ newinfo d n. update_node-keeps newinfo d)
        schedule_push-keeps (λ upd d u. receive-keeps upd d) r answers now c
        (λ addr. any-AnswerNames (answers addr))

  pub http_cluster-keeps : (r : Request) (c : Cluster) → P c → P (http_cluster r c).0
  http_cluster-keeps r c =
      Guarded.http_cluster-keeps AnyName AnyUpdate P (λ newinfo d n. update_node-keeps newinfo d)
        schedule_push-keeps (λ upd d u. receive-keeps upd d) r c (λ e. tt)

  pub http_update-keeps : (r : Request) (c : Cluster) → P c → P (http_update r c).0
  http_update-keeps r c =
      Guarded.http_update-keeps AnyName AnyUpdate P (λ newinfo d n. update_node-keeps newinfo d)
        schedule_push-keeps (λ upd d u. receive-keeps upd d) r c (any-Decoded r.json_body)

  pub on_datagram-keeps :
      (ping : Option DiscoveryPing) (client_addr : Text) (answers : Text → Answer) (now : ℤ)
      (c : Cluster)
      → P c
      → P (on_datagram ping client_addr answers now c).0
  on_datagram-keeps ping client_addr answers now c =
      Guarded.on_datagram-keeps AnyName AnyUpdate P (λ newinfo d n. update_node-keeps newinfo d)
        schedule_push-keeps (λ upd d u. receive-keeps upd d) ping client_addr answers now c
        (λ addr. any-AnswerNames (answers addr))
