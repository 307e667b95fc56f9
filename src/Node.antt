-- ===== src/Node.antt =====
-- The runs of a node (src/dftp/cluster): what peers ask of it and the calls that `go` started, in any
-- order. Each handler and each such call is one step.
pub mod Tasks
pub mod Names
pub mod Guarded
pub mod Handlers
pub mod Steps
pub mod Present
pub mod Meets
pub mod Pings
pub mod Discovered
pub mod Progress
pub mod Lost
pub mod Tracked
pub mod Named
pub mod Heard
pub mod Joins
pub mod Knows
use dftp.Base.{ℤ, Bool, List, ◌∷◌, ◌++◌, Option, Text, returns, ◌≡◌}
use dftp.Cluster.{Cluster, UpdateData, Task, greet, push, receive}
use dftp.Exchange.{Answer, greet_node, push_full_update, receive_update}
use dftp.Mgmt.{Request, DiscoveryPing, http_cluster, http_join, http_update, on_datagram}

-- The node with other calls to run.
abbrev pub with_tasks : List Task → Cluster → Cluster
with_tasks ts c = record c { tasks = ts }

pub data Step (c : Cluster) : Cluster → Type 0 where
  serve_cluster : (r : Request) → Step c (http_cluster r c).0
  serve_join :
      (r : Request) (answers : Text → Answer) (now : ℤ) → Step c (http_join r answers now c).0
  serve_update : (r : Request) → Step c (http_update r c).0
  hear :
      (ping : Option DiscoveryPing) (client_addr : Text) (answers : Text → Answer) (now : ℤ)
      → Step c (on_datagram ping client_addr answers now c).0
  run_greet :
      (before after : List Task) (addr key : Text) (answer : Answer) (now : ℤ)
      → c.tasks ≡ before ++ (greet addr key ∷ after)
      → Step c (greet_node addr answer now (with_tasks (before ++ after) c)).0
  run_push :
      (before after : List Task) (key : Text) (accepted : Bool) (now : ℤ)
      → c.tasks ≡ before ++ (push key ∷ after)
      → Step c (push_full_update key accepted now (with_tasks (before ++ after) c))
  run_receive :
      (before after : List Task) (upd : UpdateData) {c' : Cluster}
      → c.tasks ≡ before ++ (receive upd ∷ after)
      → receive_update upd (with_tasks (before ++ after) c) ≡ returns c'
      → Step c c'

pub data Reach (c : Cluster) : Cluster → Type 0 where
  here : Reach c c
  next : {d e : Cluster} → Reach c d → Step d e → Reach c e
