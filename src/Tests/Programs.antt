-- ===== src/Tests/Programs.antt =====
-- Whole programs: starts, exchanges of updates between two of them.
pub mod Reading
use mathlib.Core.List.Perm
use dftp.Base.{
  pos, true, [], ◌∷◌, ◌++◌, some, Text, codes, text_eq, byte_eq, ◌≡◌, ◌≢◌, refl, inl, ◌↔◌, returns,
  ℤ, arith, subst,
}
use dftp.Base.Assoc.{lookup, insert}
use dftp.Strings.{split, has_prefix, has_suffix, trim_prefix}
use dftp.FilePath.{join_path}
use dftp.LocalFs.{scan_loop, new_local_fs}
use dftp.Update.{ensure_init}
use dftp.Cluster.{Cluster, NodeInfo, UpdateData, put_peer, new_node, pending, new_cluster}
use dftp.Exchange.{combine_host_and_port, full_update, all_present}
use dftp.Exchange.Receive.{stamped}
use dftp.Exchange.Totals.{Applied, Received, receive_update_lem}
use dftp.LocalFs.Scan.{scan_loop-IsFresh}
use dftp.Mgmt.{Request, http_cluster, http_update}
use dftp.Fat.Paths.{stat_at}
use dftp.Node.{with_tasks, here, next, serve_cluster, serve_update, run_receive}
use dftp.Node.Heard.{heard, Reach-heard}
use dftp.Update.Runs.{update_all}
use dftp.Main.{Options, Program, program, main}
use dftp.Main.Starts.{first_scan, StartsAs, main-starts}
use dftp.Main.Servers.{Sockets, default_options, Serving, serve_main}
use dftp.Main.Serves.{CanServe, serve_main_lem}
use dftp.Main.Nodes.{Node, own_scan}
use dftp.Tests.Disk.{notes, options}
use dftp.Tests.Peers.{greeting_of_2}

pub has_root : options.dfs_root ≢ []
has_root e = cc

pub starts :
    (name : Text) (t : ℤ)
    → StartsAs name options t
        (notes ∷ [])
        (pos 20)
        (main (some name) options t (notes ∷ []) (pos 20))
starts name t = main-starts name options t (notes ∷ []) (pos 20) has_root

abbrev pub a_program : Text → ℤ → Program
a_program name t =
    program options (first_scan name options t (notes ∷ []), (starts name t).0) (pos 20)

abbrev greeting_of : Text → Request
greeting_of name = record greeting_of_2 { form_name = name }

-- The program under a name, after the greeting of another node.
abbrev pub greeted_by : Text → Text → ℤ → Cluster
unfolding http_cluster
greeted_by other name t = (http_cluster (greeting_of other) (a_program name t).cluster).0

pub node_greeted_by : (other name : Text) (t : ℤ) → Node (greeted_by other name t)
unfolding greeted_by
node_greeted_by other name t = record {
  hostname = some name;
  options = options;
  scan_t = t;
  visits = notes ∷ [];
  now = pos 20;
  start = a_program name t;
  started = (starts name t).1;
  run = next here (serve_cluster (greeting_of other));
}

abbrev peer_named : Text → NodeInfo
peer_named name = record (new_node name) {
  mgmt_addr = codes "10.0.0.2:7041";
  public_addr = codes "10.0.0.2:7040";
  greet_state = pending;
  push_state = pending;
}

h1_known :
    lookup (codes "h2") (greeted_by (codes "h2") (codes "h1") (pos 9)).peers
    ≡ some (peer_named (codes "h2"))
unfolding greeted_by new_cluster combine_host_and_port split text_eq byte_eq lookup insert
    new_local_fs
h1_known = refl

h2_known :
    lookup (codes "h1") (greeted_by (codes "h1") (codes "h2") (pos 12)).peers
    ≡ some (peer_named (codes "h1"))
unfolding greeted_by new_cluster combine_host_and_port split text_eq byte_eq lookup insert
    new_local_fs
h2_known = refl

-- The full update of the program under a name.
abbrev update_of : Text → ℤ → UpdateData
update_of name t = full_update (a_program name t).cluster

abbrev sent : Text → ℤ → Request
sent name t = record greeting_of_2 {
  content_type = codes "application/json";
  json_body = some (update_of name t);
}

module _ (other name : Text) (t u : ℤ) {peer : NodeInfo}
    (known : lookup other (greeted_by other name t).peers ≡ some peer) where
  -- The node when the call of `ReceiveUpdate` has been taken out of its tasks.
  abbrev queued : Cluster
  queued = with_tasks ((greeted_by other name t).tasks ++ []) (greeted_by other name t)

  -- The full update of the other node, once it is received.
  taken : Applied (update_of other u) queued (own_scan (a_program other u).cluster) peer
  unfolding new_cluster new_local_fs
  taken = subst (Received (update_of other u) queued (own_scan (a_program other u).cluster)) known (
      receive_update_lem (update_of other u) queued (own_scan (a_program other u).cluster) refl
        (scan_loop-IsFresh _ u [] (notes ∷ []) tt))

  abbrev updated : Cluster
  updated = put_peer other (stamped (update_of other u) peer) (record queued { dfs_root = taken.0 })

  node_updated : Node updated
  unfolding greeted_by http_update new_cluster new_local_fs text_eq byte_eq
  node_updated = record {
    hostname = some name;
    options = options;
    scan_t = t;
    visits = notes ∷ [];
    now = pos 20;
    start = a_program name t;
    started = (starts name t).1;
    run =
        next (next (next here (serve_cluster (greeting_of other))) (serve_update (sent other u)))
          (run_receive (greeted_by other name t).tasks [] (update_of other u) refl taken.1);
  }

-- The flags' defaults, with a local root.
abbrev ftp_options : Options
ftp_options = record default_options { dfs_root = codes "/data" }

abbrev sockets : Sockets Text
sockets = record {
  resolve = λ addr. some addr;
  listens_at = λ addr. true;
  dials = λ addr. true;
  http_listens = λ addr. true;
  ftp_listens = λ port. true;
}

serve_main_lem_example :
    ((s : Serving Text) × (serve_main sockets
          (some (codes "h1"))
          ftp_options
          (pos 9)
          (notes ∷ [])
          (pos 20)
        ≡ returns (some s)))
    ↔ CanServe sockets (some (codes "h1")) ftp_options
serve_main_lem_example =
    serve_main_lem sockets (some (codes "h1")) ftp_options (pos 9) (notes ∷ []) (pos 20)

Reach-heard_example :
    update_all (a_program (codes "h1") (pos 9)).cluster.dfs_root (
      heard
        (node_updated
          (codes "h2")
          (codes "h1")
          (pos 9)
          (pos 12)
          {peer = peer_named (codes "h2")}
          h1_known).run)
    ≡ returns
        (updated
          (codes "h2")
          (codes "h1")
          (pos 9)
          (pos 12)
          {peer = peer_named (codes "h2")}
          h1_known).dfs_root
unfolding node_updated
Reach-heard_example =
    Reach-heard
      (node_updated (codes "h2") (codes "h1") (pos 9) (pos 12) {peer = peer_named (codes "h2")}
        h1_known).run
