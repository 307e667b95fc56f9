-- ===== src/Exchange.antt =====
-- src/dftp/cluster/communication.go: greeting a peer, pushing an update and receiving one. What a peer
-- answers is an argument. A call that panics ends there, with what it has written before.
pub mod Receive
pub mod Addresses
pub mod Totals
pub mod Greets
use dftp.Base.{
  ℕ, ℤ, pos, Bool, true, false, not, ◌&&◌, ◌||◌, List, [], ◌∷◌, ◌++◌, map, Option, none, some, Text,
  codes, ◌==◌, byte_eq, text_eq, if◌then◌else◌, Outcome, returns, panics, out_of_fuel, ◌>>=◌, ◌≡◌,
  refl,
}
use dftp.Base.Assoc.{Assoc, lookup, insert}
use dftp.Strings.{split}
use dftp.Fat.{TreeNode}
use dftp.Update.{FileAnnouncement, update}
use dftp.LocalFs.{LocalFs, get_last_full_scan}
use dftp.Cluster.{Cluster, NodeInfo, UpdateData, never, done, put_peer, update_node}

-- The update that `PushFullUpdate` sends.
abbrev pub full_update : Cluster → UpdateData
full_update c =
    let (files, scan_t) = get_last_full_scan c.local_fs in
    record {
      files = map some files;
      update_time = scan_t;
      full = true;
      sender_node_name = c.me.name;
    }

-- `PushFullUpdate`, from the peer's answer on: whether it was an HTTP 200.
unfoldable pub push_full_update : Text → Bool → ℤ → Cluster → Cluster
unfolding lookup insert
push_full_update key accepted now c = elim (lookup key c.peers) [
  | none ↦ c
  | some node ↦
      put_peer key
        (if accepted
          then record node { push_state = done; last_update_pushed = now }
          else record node { push_state = never })
        c
]

-- Reading through each pointer of a slice panics at a nil one.
unfoldable pub all_present {ℓ} : {A : Type ℓ} → List (Option A) → Outcome (List A)
all_present [] = returns []
all_present (none ∷ rest) = panics
all_present (some a ∷ rest) = all_present rest >>= λ xs. returns (a ∷ xs)

-- The update of a peer, once the peer is found.
unfoldable pub apply_update : UpdateData → NodeInfo → Cluster → Outcome Cluster
unfolding all_present update insert
apply_update upd node c = all_present upd.files >>= λ files. update c.dfs_root files >>= λ root.
    returns (
      put_peer upd.sender_node_name
        (record node {
          last_update_received = upd.update_time;
          last_full_update_received = upd.update_time;
        })
        (record c { dfs_root = root }))

-- `ReceiveUpdate`
unfoldable pub receive_update : UpdateData → Cluster → Outcome Cluster
unfolding lookup apply_update
receive_update upd c = elim (lookup upd.sender_node_name c.peers) [
  | none ↦ returns c
  | some node ↦ apply_update upd node c
]

abbrev second_part : List Text → Outcome Text
second_part (a ∷ b ∷ rest) = returns b
second_part _ = panics

abbrev head_part : List Text → Outcome Text
head_part (a ∷ rest) = returns a
head_part [] = panics

-- `combineHostAndPort`
unfoldable pub combine_host_and_port : Text → Text → Outcome Text
unfolding split
combine_host_and_port addr1 addr2 = head_part (split addr1 b':') >>= λ host.
    second_part (split addr2 b':') >>= λ port. returns (host ++ (b':' ∷ port))

-- `PublicClusterInfo`, as decoded from JSON: `Me`, the map and its values can be nil.
pub record PublicClusterInfo : Type 0 where
  pub name : Text
  pub me : Option NodeInfo
  pub peers : Option (Assoc (Option NodeInfo))

-- What `PostForm` of a greeting ends in: an error, a status other than 200, a body that is no
-- cluster info, or the peer's cluster info.
pub data Answer : Type 0 where
  unreachable : Answer
  bad_status : ℕ → Answer
  bad_body : Answer
  info : PublicClusterInfo → Answer

-- How a call ends.
pub data Ending : Type 0 where
  normal panicked : Ending

-- The loop of `GreetNode` over the peers of the answer.
unfoldable pub update_nodes : Assoc (Option NodeInfo) → Cluster → Cluster × Ending
unfolding update_node
update_nodes [] c = (c, normal)
update_nodes ((key, none) ∷ peers) c = (c, panicked)
update_nodes ((key, some p) ∷ peers) c = update_nodes peers (update_node p c)

-- The greeted node as the answer describes it, with what `GreetNode` writes into it.
abbrev pub greeted : Text → Text → ℤ → NodeInfo → NodeInfo
greeted mgmt_address public_address now node = record node {
  last_alive = now;
  mgmt_addr = mgmt_address;
  public_addr = public_address;
  greet_state = done;
}

-- The peers of an answer, with the greeted node among them.
unfoldable pub answer_peers : Text → ℤ → PublicClusterInfo → Outcome (Assoc (Option NodeInfo))
unfolding combine_host_and_port insert
answer_peers addr now r = elim r.me [
  | none ↦ panics
  | some node ↦ combine_host_and_port addr node.public_addr >>= λ public_address. elim r.peers [
    | none ↦ panics
    | some peers ↦ returns (insert node.name (some (greeted addr public_address now node)) peers)
  ]
]

abbrev pub learn : Outcome (Assoc (Option NodeInfo)) → Cluster → Cluster × Ending
learn (returns peers) c = update_nodes peers c
learn panics c = (c, panicked)
learn out_of_fuel c = (c, panicked)

-- `GreetNode`, from the answer on
unfoldable pub greet_node : Text → Answer → ℤ → Cluster → Cluster × Ending
unfolding update_nodes answer_peers
greet_node addr (info r) now c = learn (answer_peers addr now r) c
greet_node addr _ now c = (c, normal)

-- The form that `GreetNode` posts.
pub record Greeting : Type 0 where
  pub name : Text
  pub public_addr : Text
  pub mgmt_addr : Text
  pub request_full_update : Bool

abbrev pub greeting : Cluster → Bool → Greeting
greeting c full = record {
  name = c.me.name;
  public_addr = c.me.public_addr;
  mgmt_addr = c.me.mgmt_addr;
  request_full_update = full;
}
