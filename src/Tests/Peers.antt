-- ===== src/Tests/Peers.antt =====
-- The peers of a node and its servers: runs and witnesses.
pub mod Runs
pub mod Joining
use dftp.Base.{
  ◌==◌, ap, pos, true, false, [], ◌∷◌, none, some, Text, codes, text_eq, byte_eq, All, returns,
  panics, ◌≡◌, ◌≢◌, refl,
}
use dftp.Base.Assoc.{lookup, insert}
use dftp.Strings.{split}
use dftp.Fat.{zero_stat, TreeNode, tree_node, no_children, child}
use dftp.LocalFs.{LocalFs}
use dftp.Cluster.{
  Cluster, NodeInfo, new_node, UpdateData, greet, push, new_cluster, update_node, peer_or_new,
}
use dftp.Cluster.Meet.{met, Learns, update_node-Learns}
use dftp.Exchange.{
  combine_host_and_port, receive_update, Answer, unreachable, info, panicked, greet_node,
}
use dftp.Exchange.Totals.{Applied, receive_update_lem, receive_update-panics}
use dftp.Exchange.Addresses.{combine_host_and_port_lem, combine_host_and_port-panics}
use dftp.Strings.Laws.{Lacks}
use dftp.Mgmt.Greetings.{requested, greeter_at, http_cluster-greets}
use dftp.Mgmt.{
  respond_info, Request, http_cluster, http_update, DiscoveryPing, on_datagram, public_cluster_info,
}
use dftp.Mgmt.Errors.{ping_crash, greet_crash}
use dftp.Node.{serve_cluster, here, next}
use dftp.Node.Tasks.{IsTracked}
use dftp.Node.Tracked.{new_cluster-IsTracked}
use dftp.Node.Named.{IsNamed, new_cluster-IsNamed}

abbrev pub local_dir : LocalFs
local_dir = record {
  local_root = codes "/data/";
  dfs_mount_point = codes "docs";
  my_node_name = codes "node1";
  last_full_scan = [];
  last_full_scan_time = pos 0;
}

abbrev pub a_file : TreeNode
a_file = tree_node (record zero_stat { owner_node = codes "node2" }) no_children

abbrev pub tree : TreeNode
tree =
    tree_node (record zero_stat { dir = true })
      (child (codes "docs")
        (tree_node (record zero_stat { dir = true }) (child (codes "a") a_file no_children))
        no_children)

abbrev pub node1 : Cluster
unfolding new_cluster
node1 = new_cluster tree local_dir (codes "c") (codes "h1:7040") (codes "h1:7041") (pos 5)

-- A node that was started with an empty `-http-listen`.
abbrev pub node2 : Cluster
unfolding new_cluster
node2 = new_cluster tree local_dir (codes "c") [] (codes "h2:7041") (pos 5)

abbrev pub greeting_of_2 : Request
greeting_of_2 = record {
  method = codes "POST";
  remote_addr = codes "10.0.0.2:5000";
  form_name = codes "node2";
  form_public_addr = codes ":7040";
  form_mgmt_addr = codes ":7041";
  form_request_full_update = codes "true";
  form_peers = [];
  content_type = codes "";
  json_body = none;
}

abbrev pub peer2 : NodeInfo
peer2 = record (new_node (codes "node2")) { mgmt_addr = codes "10.0.0.2:7041" }

update_node-Learns_example : Learns peer2 node1 (codes "node2") (update_node peer2 node1)
update_node-Learns_example = update_node-Learns peer2 node1 (codes "node2")

abbrev pub after_greeting : Cluster
unfolding http_cluster
after_greeting = (http_cluster greeting_of_2 node1).0

new_cluster-IsTracked_example : IsTracked after_greeting
unfolding after_greeting node1 new_cluster
new_cluster-IsTracked_example =
    new_cluster-IsTracked tree local_dir (codes "c") (codes "h1:7040") (codes "h1:7041") (pos 5)
      (next here (serve_cluster greeting_of_2))

new_cluster-IsNamed_example : IsNamed node1.me local_dir after_greeting
unfolding after_greeting node1 new_cluster
new_cluster-IsNamed_example =
    new_cluster-IsNamed tree local_dir (codes "c") (codes "h1:7040") (codes "h1:7041") (pos 5)
      (next here (serve_cluster greeting_of_2))

-- A run: the greeting leaves one peer, whose greeting and push are to run.
greeting_test :
    after_greeting.tasks ≡ greet (codes "10.0.0.2:7041") (codes "node2") ∷ push (codes "node2") ∷ []
unfolding after_greeting node1 combine_host_and_port split text_eq byte_eq lookup insert
greeting_test = refl

abbrev no_files : UpdateData
no_files = record {
  files = [];
  update_time = pos 9;
  full = false;
  sender_node_name = codes "node2";
}

abbrev pub met_2 : Cluster
unfolding new_cluster
met_2 = record node1 { peers = (codes "node2", peer2) ∷ [] }

pub no_colon : All (λ c. c ≢ b':') (codes "h1")
no_colon = (λ e. cc, (λ e. cc, tt))

abbrev bad_ping : DiscoveryPing
bad_ping = record {
  type = codes "ping";
  cluster_name = codes "other";
  node_name = codes "b";
  mgmt_addr = codes "h1";
}

abbrev pub silent : Text → Answer
silent addr = unreachable

ping_crash_example :
    on_datagram (some bad_ping) (codes "10.0.0.2:5000") silent (pos 7) node1 ≡ (node1, panicked)
unfolding node1 new_cluster
ping_crash_example =
    ping_crash bad_ping (codes "10.0.0.2:5000") silent (pos 7) node1 refl (λ e. cc) (λ e. cc)
      no_colon

greet_crash_example :
    greet_node (codes "h2:7041") (info (public_cluster_info node2)) (pos 7) node1
    ≡ (node1, panicked)
unfolding node2 new_cluster
greet_crash_example = greet_crash (codes "h2:7041") (pos 7) node1 node2 tt

pub greeter_host : Lacks b':' (codes "10.0.0.2")
greeter_host =
    (λ e. cc, (λ e. cc, (λ e. cc, (λ e. cc, (λ e. cc, (λ e. cc, (λ e. cc, (λ e. cc, tt))))))))

pub other_name : codes "node2" ≢ codes "node1"
unfolding text_eq byte_eq
other_name e = let d : true ≡ false = ap (λ t. codes "node2" == t) e in cc

http_cluster-greets_example :
    (http_cluster greeting_of_2 node1 ≡ respond_info (http_cluster greeting_of_2 node1).0)
    × (lookup (codes "node2") (http_cluster greeting_of_2 node1).0.peers
        ≡ some (
            requested true (
              met
                (greeter_at (codes "node2") (codes "10.0.0.2") (codes "7040") (codes "7041"))
                (peer_or_new node1 (codes "node2")))))
unfolding node1 new_cluster text_eq byte_eq
http_cluster-greets_example =
    http_cluster-greets greeting_of_2 (codes "10.0.0.2") (codes "5000") (codes "7040")
      (codes "7041") greeter_host (λ e. cc, (λ e. cc, (λ e. cc, (λ e. cc, tt))))
      (λ e. cc, (λ e. cc, (λ e. cc, (λ e. cc, tt)))) refl refl refl node1 refl (λ e. cc) other_name
