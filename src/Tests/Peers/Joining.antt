-- ===== src/Tests/Peers/Joining.antt =====
-- A node that joins another one, and goes on to greet its peers.
use dftp.Base.{
  pos, true, false, [], ◌∷◌, none, Text, codes, ◌==◌, text_eq, byte_eq, ◌≡◌, ◌≢◌, refl, ap,
}
use dftp.Base.Assoc.{lookup, insert}
use dftp.Strings.{split}
use dftp.LocalFs.{LocalFs}
use dftp.Cluster.{Cluster, new_cluster}
use dftp.Exchange.{Answer, info, combine_host_and_port}
use dftp.Mgmt.{Request, public_cluster_info, respond_info, http_join}
use dftp.Node.{here, next, serve_cluster}
use dftp.Node.Named.{IsNamed, new_cluster-IsNamed}
use dftp.Node.Present.{HasPeer}
use dftp.Node.Meets.{Meets}
use dftp.Node.Joins.{WillGreet, http_join-Meets}
use dftp.Tests.Peers.{tree, local_dir, node1, after_greeting, greeting_of_2}

abbrev third_dir : LocalFs
third_dir = record local_dir { my_node_name = codes "node3" }

abbrev third : Cluster
unfolding new_cluster
third = new_cluster tree third_dir (codes "c") (codes ":7040") (codes ":7041") (pos 5)

abbrev join_h1 : Request
join_h1 = record greeting_of_2 { form_peers = codes "h1:7041" ∷ [] }

abbrev answers_as_h1 : Text → Answer
answers_as_h1 addr = info (public_cluster_info after_greeting)

after_greeting-IsNamed : IsNamed node1.me local_dir after_greeting
unfolding after_greeting node1 new_cluster
after_greeting-IsNamed =
    new_cluster-IsNamed tree local_dir (codes "c") (codes "h1:7040") (codes "h1:7041") (pos 5)
      (next here (serve_cluster greeting_of_2))

http_join-Meets_example :
    (d' : Cluster) × (http_join join_h1 answers_as_h1 (pos 7) third ≡ respond_info d')
    × Meets (codes "h1:7041") (codes "h1:7040") after_greeting third d'
    × ((key : Text)
        → key ≢ third.me.name
        → HasPeer key after_greeting
        → lookup key third.peers ≡ none
        → WillGreet key d')
unfolding after_greeting node1 third new_cluster combine_host_and_port split text_eq byte_eq lookup
    insert
http_join-Meets_example =
    http_join-Meets node1.me local_dir (codes "h1:7041") (codes "h1:7040") (pos 7) after_greeting
      third join_h1 answers_as_h1 after_greeting-IsNamed
      (λ e. let d : true ≡ false = ap (λ t. codes "node1" == t) e in cc) refl refl refl refl
