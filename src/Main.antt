-- ===== src/Main.antt =====
-- src/dftp/main.go: the options, and the node that the program starts with.
pub mod Starts
pub mod Servers
pub mod Given
pub mod Serves
pub mod Launches
pub mod Nodes
use dftp.Base.{
  ℤ, Bool, true, false, not, List, [], Option, none, some, Text, codes, ◌==◌, text_eq,
  if◌then◌else◌, Outcome, returns, ◌>>=◌, ◌≡◌, ◌≢◌, refl, ==_ne, arith,
}
use dftp.Fat.{TreeNode, new_root_node}
use dftp.LocalFs.{LocalFs, new_local_fs, Visit, scan_once}
use dftp.Cluster.{Cluster, new_cluster}

-- The options that `main` reads itself.
pub record Options : Type 0 where
  pub dfs_root : Text
  pub dfs_mount_point : Text
  pub my_node_name : Text
  pub http_addr : Text
  pub ftp_addr : Text
  pub multicast_addr : Text
  pub cluster_name : Text
  pub http_mgmt_addr : Text

-- The node's name: the hostname, or the option if there is none.
abbrev pub node_name : Option Text → Options → Option Text
node_name (some hostname) o = some hostname
node_name none o = if o.my_node_name == [] then none else some o.my_node_name

-- What `main` runs: the node, and which servers it starts.
pub record Program : Type 0 where
  pub cluster : Cluster
  pub mgmt_server : Text
  pub http_server : Option Text
  pub ftp_server : Option Text
  pub discovery : Option Text

pub data Start : Type 0 where
  fatal : Text → Start
  runs : Program → Start

abbrev pub unless_empty : Text → Option Text
unless_empty addr = if not (addr == []) then some addr else none

abbrev pub program : Options → LocalFs × TreeNode → ℤ → Program
program o (fs, root) now = record {
  cluster = new_cluster root fs o.cluster_name o.http_addr o.http_mgmt_addr now;
  mgmt_server = o.http_mgmt_addr;
  http_server = unless_empty o.http_addr;
  ftp_server = unless_empty o.ftp_addr;
  discovery = unless_empty o.multicast_addr;
}

-- The part of `main` after the checks.
unfoldable pub launch : Text → Options → ℤ → List Visit → ℤ → Outcome Start
unfolding scan_once new_local_fs new_cluster
launch name o scan_t visits now =
    scan_once (new_local_fs o.dfs_root o.dfs_mount_point name) new_root_node scan_t visits >>= λ p.
    returns (runs (program o p now))

-- `main`
unfoldable pub main : Option Text → Options → ℤ → List Visit → ℤ → Outcome Start
unfolding launch
main hostname o scan_t visits now = elim (node_name hostname o) [
  | none ↦ returns (fatal (codes "node name not known"))
  | some name ↦
      if o.dfs_root == []
      then returns (fatal (codes "specify --dfsroot"))
      else launch name o scan_t visits now
]
