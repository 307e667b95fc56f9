-- ===== src/Tests/Servers.antt =====
-- Reading and listing files: runs and witnesses.
use dftp.Base.{
  if◌then◌else◌, ltb_ℤ, negsuc, pos, true, [], ◌∷◌, Option, none, some, Text, codes, text_eq,
  byte_eq, All, ◌≡◌, refl,
}
use dftp.Strings.{join}
use dftp.Strings.Ends.{IsName}
use dftp.Fat.{FileStat, zero_stat, tree_node, no_children, child, lookup_child}
use dftp.Fat.Paths.{node_at}
use dftp.Cluster.{Cluster, new_cluster}
use dftp.Proxy.{RemoteRequest, HttpAnswer, open_read}
use dftp.Proxy
use dftp.Proxy.Redirects.{open_read-requests, Server}
use dftp.HttpFace.{Entry}
use dftp.HttpFace.Dirs.{BothList, both_list}
use dftp.HttpFace.Files.{BothRead, both_read}
use dftp.Tests.Peers.{a_file, node1, met_2}

abbrev pub empty_disk : Text → Option Text
empty_disk name = none

abbrev pub deaf : RemoteRequest → HttpAnswer
deaf r = Proxy.unreachable

-- A node that answers only a request that has passed no node before.
abbrev first_only : RemoteRequest → HttpAnswer
first_only r =
    if ltb_ℤ (pos 1) r.redir_n then Proxy.unreachable else Proxy.status 200 (codes "text")

-- A node that answers every request.
abbrev always : RemoteRequest → HttpAnswer
always r = Proxy.status 200 (codes "text")

open_read-requests_example :
    open_read empty_disk first_only met_2
      (codes "docs/a")
      (record { stat = record zero_stat { owner_node = codes "node2" }; children = no_children })
      (pos 0)
    ≡ open_read empty_disk always met_2
        (codes "docs/a")
        (record { stat = record zero_stat { owner_node = codes "node2" }; children = no_children })
        (pos 0)
open_read-requests_example =
    open_read-requests empty_disk first_only always met_2 (codes "docs/a") (pos 0)
      (λ r p e l. rw e refl)
      (record { stat = record zero_stat { owner_node = codes "node2" }; children = no_children })

abbrev one_node : Text → Option Server
one_node addr = some (record { cluster = met_2; disk = empty_disk })

abbrev read_a : RemoteRequest
read_a = record { public_addr = codes "h1:7040"; path = codes "docs/a"; redir_n = pos 0 }

abbrev same_request : RemoteRequest → RemoteRequest
same_request r = r

docs_a : All IsName (codes "docs" ∷ codes "a" ∷ [])
docs_a = ((λ e. cc, (λ e. cc, (λ e. cc, (λ e. cc, (λ e. cc, tt))))), ((λ e. cc, (λ e. cc, tt)), tt))

abbrev with_docs : Cluster
with_docs = record met_2 {
  dfs_root =
      tree_node (record zero_stat { dir = true })
        (child (codes "docs")
          (tree_node (record zero_stat { dir = true }) (child (codes "a") a_file no_children))
          no_children);
}

both_list_example :
    BothList empty_disk deaf with_docs (codes "docs") (child (codes "a") a_file no_children)
unfolding join node_at lookup_child text_eq byte_eq
both_list_example =
    both_list empty_disk deaf with_docs (codes "docs") [] (record zero_stat { dir = true })
      (child (codes "a") a_file no_children) (docs_a.0, tt) refl refl

abbrev pub entry_b : Entry
entry_b = record { name = codes "b"; node = a_file; sortname = codes "Bb" }

abbrev pub entry_a : Entry
entry_a = record { name = codes "a"; node = a_file; sortname = codes "Ba" }

-- A file of this node that the tree has as deleted.
abbrev gone : FileStat
gone = record zero_stat { size_in_bytes = negsuc 0; owner_node = codes "node1" }

abbrev with_gone : Cluster
unfolding new_cluster
with_gone = record node1 {
  dfs_root =
      tree_node (record zero_stat { dir = true })
        (child (codes "a") (tree_node gone no_children) no_children);
}

both_read_example : BothRead empty_disk deaf with_gone (codes "a") gone no_children
unfolding with_gone node_at lookup_child join text_eq byte_eq
both_read_example =
    both_read empty_disk deaf with_gone (codes "a") [] gone no_children (docs_a.1.0, tt) refl refl
