-- ===== src/Tests/Peers/Runs.antt =====
-- Runs of nodes: pushes, greetings, pings and proxies.
use mathlib.Core.Option
use dftp.Base.{pos, true, [], ◌∷◌, some, Text, codes, text_eq, byte_eq, ◌≡◌, refl}
use dftp.Base.Assoc.{lookup, insert}
use dftp.Strings.{split}
use dftp.LocalFs.{LocalFs}
use dftp.Cluster.{Cluster, NodeInfo, push, pending, new_cluster, known_mgmt_adr}
use dftp.Exchange.{Answer, unreachable, info, normal, greet_node, combine_host_and_port}
use dftp.Mgmt.{my_ping, on_datagram, public_cluster_info}
use dftp.Node.{here, next, serve_cluster}
use dftp.Node.Tasks.{count, is_greet}
use dftp.Node.Progress.{CanEnd, push_progress}
use dftp.Node.Lost.{greeting_lost}
use dftp.Node.Named.{IsNamed, new_cluster-IsNamed}
use dftp.Node.Meets.{Meets}
use dftp.Node.Discovered.{HasPort, discovered}
use dftp.Proxy.Cache.{Url, new_proxy, fresh, get_http_proxy, director, at_node, get_http_proxy_lem}
use dftp.Tests.Peers.{
  tree, local_dir, node1, met_2, after_greeting, greeting_of_2, greeter_host, other_name, peer2,
}

abbrev here2 : NodeInfo
here2 = record peer2 {
  public_addr = codes "10.0.0.2:7040";
  greet_state = pending;
  push_state = pending;
}

after_greeting-here2 : lookup (codes "node2") after_greeting.peers ≡ some here2
unfolding after_greeting node1 combine_host_and_port split text_eq byte_eq lookup insert
after_greeting-here2 = refl

push_progress_example : CanEnd after_greeting (codes "node2") here2 true (pos 9)
unfolding after_greeting node1 new_cluster
push_progress_example =
    push_progress tree local_dir (codes "c") (codes "h1:7040") (codes "h1:7041") (pos 5)
      after_greeting (codes "node2") here2 true (pos 9) (next here (serve_cluster greeting_of_2))
      after_greeting-here2 refl

abbrev without_greeting : Cluster
unfolding after_greeting
without_greeting = record after_greeting { tasks = push (codes "node2") ∷ [] }

greeting_lost_example : count (is_greet (codes "node2")) without_greeting.tasks ≡ 0
unfolding after_greeting node1 new_cluster combine_host_and_port split text_eq byte_eq lookup insert
    greet_node
greeting_lost_example =
    greeting_lost tree local_dir (codes "c") (codes "h1:7040") (codes "h1:7041") (pos 5)
      after_greeting without_greeting [] (push (codes "node2") ∷ []) (codes "10.0.0.2:7041")
      (codes "node2") unreachable (pos 9) (next here (serve_cluster greeting_of_2)) refl refl here

abbrev a_url : Url
a_url = record { scheme = []; host = codes "h1:7040"; path = codes "/fs/docs/a" }

get_http_proxy_lem_example :
    Option.map
      (λ proxy. director met_2 proxy a_url)
      (get_http_proxy (codes "node2") met_2 new_proxy).1
    ≡ some (at_node a_url peer2)
unfolding met_2 node1 new_cluster lookup text_eq byte_eq
get_http_proxy_lem_example =
    get_http_proxy_lem met_2 met_2 met_2 new_proxy (codes "node2") a_url fresh here

abbrev second_dir : LocalFs
second_dir = record local_dir { my_node_name = codes "node2" }

-- A second node, with ports for its addresses.
abbrev second : Cluster
unfolding new_cluster
second = new_cluster tree second_dir (codes "c") (codes ":7040") (codes ":7041") (pos 5)

second-IsNamed : IsNamed second.me second_dir second
unfolding second
second-IsNamed =
    new_cluster-IsNamed tree second_dir (codes "c") (codes ":7040") (codes ":7041") (pos 5) here

pub mgmt_port : HasPort (codes ":7041") (codes "7041")
mgmt_port = record {
  host = [];
  host_plain = tt;
  port_plain = (λ e. cc, (λ e. cc, (λ e. cc, (λ e. cc, tt))));
  parts = refl;
}

pub public_port : HasPort (codes ":7040") (codes "7040")
public_port = record {
  host = [];
  host_plain = tt;
  port_plain = (λ e. cc, (λ e. cc, (λ e. cc, (λ e. cc, tt))));
  parts = refl;
}

abbrev answers_as_second : Text → Answer
answers_as_second addr = info (public_cluster_info second)

discovered_example :
    (d' : Cluster) × (on_datagram
        (some (my_ping second))
        (codes "10.0.0.2:5000")
        answers_as_second
        (pos 7)
        node1
      ≡ (d', normal))
    × Meets (codes "10.0.0.2:7041") (codes "10.0.0.2:7040") second node1 d'
unfolding node1 second new_cluster known_mgmt_adr text_eq byte_eq
discovered_example =
    discovered second.me second_dir second second node1 (codes "10.0.0.2") (codes "5000")
      (codes "7041") (codes "7040") answers_as_second (pos 7) second-IsNamed here other_name
      greeter_host mgmt_port public_port refl refl
