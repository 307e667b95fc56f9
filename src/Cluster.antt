-- ===== src/Cluster.antt =====
-- src/dftp/cluster/cluster.go and communication.go: a node's view of its peers. A `*NodeInfo` of the
-- map is named by its key: no entry is ever removed or replaced. A `go` statement puts the call into
-- `tasks`, where it stays until it has run. The tree that `Cluster.DfsRoot`, `LocalFs.DfsRoot` and the
-- servers' `DfsRoot` point to is one field.
pub mod Meet
pub mod Changes
use dftp.Base.{
  ℕ, ℤ, pos, Bool, true, false, not, ◌&&◌, ◌||◌, List, [], ◌∷◌, ◌++◌, Option, none, some, Text,
  codes, ◌==◌, text_eq, if◌then◌else◌, Outcome, returns, panics, ◌>>=◌, ◌≡◌, refl,
}
use dftp.Base.Assoc.{Assoc, lookup, insert}
use dftp.Strings.{split}
use dftp.Fat.{TreeNode}
use dftp.Update.{FileAnnouncement, update}
use dftp.LocalFs.{LocalFs, get_last_full_scan}

-- `StateNever`, `StatePending`, `StateDone`
pub data PeerState : Type 0 where
  never pending done : PeerState

-- `NodeInfo`
pub record NodeInfo : Type 0 where
  pub name : Text
  pub public_addr : Text
  pub mgmt_addr : Text
  pub last_alive : ℤ
  pub last_update_pushed : ℤ
  pub last_update_received : ℤ
  pub last_full_update_received : ℤ
  pub greet_state : PeerState
  pub push_state : PeerState

-- `&NodeInfo{Name: name}`
abbrev pub new_node : Text → NodeInfo
new_node node_name = record {
  name = node_name;
  public_addr = [];
  mgmt_addr = [];
  last_alive = pos 0;
  last_update_pushed = pos 0;
  last_update_received = pos 0;
  last_full_update_received = pos 0;
  greet_state = never;
  push_state = never;
}

-- `UpdateData`, as decoded from JSON: a pointer in `files` can be nil.
pub record UpdateData : Type 0 where
  pub files : List (Option FileAnnouncement)
  pub update_time : ℤ
  pub full : Bool
  pub sender_node_name : Text

-- The calls that `go` starts: `GreetNode(addr, node, true)`, `PushFullUpdate(node)` and
-- `ReceiveUpdate(upd)`.
pub data Task : Type 0 where
  greet : Text → Text → Task
  push : Text → Task
  receive : UpdateData → Task

-- `Cluster`; `me` and `peers` are those of `PublicClusterInfo`.
pub record Cluster : Type 0 where
  pub name : Text
  pub me : NodeInfo
  pub peers : Assoc NodeInfo
  pub dfs_root : TreeNode
  pub local_fs : LocalFs
  pub tasks : List Task

-- `New`, but for the HTTP client and the start of the discovery
unfoldable pub new_cluster : TreeNode → LocalFs → Text → Text → Text → ℤ → Cluster
new_cluster root fs cluster_name public_address mgmt_address now = record {
  name = cluster_name;
  me = record (new_node fs.my_node_name) {
    public_addr = public_address;
    mgmt_addr = mgmt_address;
    last_alive = now;
  };
  peers = [];
  dfs_root = root;
  local_fs = fs;
  tasks = [];
}

abbrev any_mgmt_addr : Text → Assoc NodeInfo → Bool
any_mgmt_addr addr [] = false
any_mgmt_addr addr ((k, p) ∷ peers) = p.mgmt_addr == addr || any_mgmt_addr addr peers

-- `KnownMgmtAdr`
unfoldable pub known_mgmt_adr : Cluster → Text → Bool
known_mgmt_adr c addr = c.me.mgmt_addr == addr || any_mgmt_addr addr c.peers

abbrev pub is_never : PeerState → Bool
is_never never = true
is_never _ = false

abbrev pub is_pending : PeerState → Bool
is_pending pending = true
is_pending _ = false

abbrev pub is_done : PeerState → Bool
is_done done = true
is_done _ = false

-- A write through the pointer to a peer.
abbrev pub put_peer : Text → NodeInfo → Cluster → Cluster
put_peer key node c = record c { peers = insert key node c.peers }

abbrev pub spawn : Task → Cluster → Cluster
spawn t c = record c { tasks = c.tasks ++ t ∷ [] }

-- `ScheduleGreet`
unfoldable pub schedule_greet : Text → Cluster → Cluster
unfolding lookup insert
schedule_greet key c = elim (lookup key c.peers) [
  | none ↦ c
  | some node ↦
      if not (is_never node.greet_state)
      then c
      else spawn (greet node.mgmt_addr key) (put_peer key (record node { greet_state = pending }) c)
]

-- `SchedulePush`
unfoldable pub schedule_push : Text → Cluster → Cluster
unfolding lookup insert
schedule_push key c = elim (lookup key c.peers) [
  | none ↦ c
  | some node ↦
      if is_pending node.push_state
      then c
      else spawn (push key) (put_peer key (record node { push_state = pending }) c)
]

-- The peer of a name, or the one that `UpdateNode` makes for it.
abbrev pub peer_or_new : Cluster → Text → NodeInfo
peer_or_new c key = elim (lookup key c.peers) [ none ↦ new_node key | some node ↦ node ]

-- What `UpdateNode` writes into a peer.
abbrev pub refresh : NodeInfo → NodeInfo → NodeInfo
refresh newinfo node = record node {
  public_addr = newinfo.public_addr;
  mgmt_addr = newinfo.mgmt_addr;
  last_alive = newinfo.last_alive;
  greet_state = if is_done newinfo.greet_state then newinfo.greet_state else node.greet_state;
}

-- `UpdateNode`
unfoldable pub update_node : NodeInfo → Cluster → Cluster
unfolding schedule_greet schedule_push
update_node newinfo c =
    if newinfo.name == c.me.name
    then c
    else let node = refresh newinfo (peer_or_new c newinfo.name) in
      let c1 = put_peer newinfo.name node c in
      let c2 = if is_never node.greet_state then schedule_greet newinfo.name c1 else c1 in
      if is_never node.push_state then schedule_push newinfo.name c2 else c2
