-- ===== src/HttpFace/Remote.antt =====
-- A file of another node, read through the network.
use dftp.Base.{
  ℕ, suc, pos, false, List, ◌∷◌, Option, some, Text, ◌==◌, text_eq, if◌then◌else◌, All, returns,
  ◌≡◌, ◌≢◌, refl, ap, ◌∙◌, ==_refl, ==_ne,
}
use dftp.Base.Assoc.{lookup}
use dftp.Strings.{join, slash}
use dftp.Strings.Ends.{IsName}
use dftp.Fat.{FileStat, tree_node, ChildNodes, TreeNodeReadonly}
use dftp.Fat.Paths.{node_at, names_of}
use dftp.Fat.Names.{names_of-join}
use dftp.LocalFs.{local_open_read}
use dftp.Cluster.{Cluster, NodeInfo}
use dftp.Proxy.{
  RemoteRequest, HttpAnswer, ReadResult, contents, failed, proxy_error, read_answer, read_local,
  read_remote, open_read,
}
use dftp.Proxy.Redirects.{IsPlainPath, ReadsPlain, Server, serve, network, as_answer}
use dftp.Ftp.{get_file, read_result}
use dftp.HttpFace.{fs, read_response}
use dftp.HttpFace.Files.{plain_request, both_read}

-- What a read comes to at a node that asks another one for it: an error is a status 500.
abbrev pub through : ReadResult → ReadResult
through (contents body) = contents body
through (failed e) = failed (proxy_error 500)

answered : (r : ReadResult) → read_answer (as_answer r) ≡ through r
answered (contents body) = refl
answered (failed e) = refl

module _ (reads : RemoteRequest → RemoteRequest) (keeps : ReadsPlain reads)
    (other : RemoteRequest → HttpAnswer) (net : Text → Option Server) where
  -- A read of a node's own file does not ask anyone.
  own_read :
      (disk : Text → Option Text) (get : RemoteRequest → HttpAnswer) (c : Cluster) (path : Text)
      (entry : TreeNodeReadonly) (n : ℕ)
      → entry.stat.owner_node ≡ c.local_fs.my_node_name
      → open_read disk get c path entry (pos n) ≡ read_local disk (local_open_read c.local_fs path)
  unfolding open_read
  own_read disk get c path entry n e = rw (e, ==_refl) refl

  -- The answer of a node to a request for a file of its own.
  own_answer :
      (k n : ℕ) (a : Server) (addr path : Text) (s : FileStat) (nodes : ChildNodes)
      → IsPlainPath path
      → net addr ≡ some a
      → node_at a.cluster.dfs_root (names_of path) ≡ some (tree_node s nodes)
      → s.dir ≡ false
      → s.owner_node ≡ a.cluster.local_fs.my_node_name
      → network reads other net
          (suc k)
          (record { public_addr = addr; path = path; redir_n = pos n })
        ≡ as_answer (read_local a.disk (local_open_read a.cluster.local_fs path))
  unfolding network serve
  own_answer k n a addr path s nodes plain at found file own =
      let r : RemoteRequest = record { public_addr = addr; path = path; redir_n = pos n } in
      let reaches : network reads other net (suc k) r
          ≡ serve other (network reads other net k) a (reads r) =
        rw (network, at) refl in
      reaches
      ∙ ap (serve other (network reads other net k) a) (keeps r plain)
      ∙ rw (serve, found, file)
          (ap as_answer (
            own_read a.disk (network reads other net k) a.cluster path
              (record { stat = s; children = nodes }) n own))

  asks :
      (k : ℕ) (a b : Server) (path : Text) (s : FileStat) (nodes : ChildNodes) (peer : NodeInfo)
      → IsPlainPath path
      → lookup a.cluster.local_fs.my_node_name b.cluster.peers ≡ some peer
      → net peer.public_addr ≡ some a
      → node_at a.cluster.dfs_root (names_of path) ≡ some (tree_node s nodes)
      → s.dir ≡ false
      → s.owner_node ≡ a.cluster.local_fs.my_node_name
      → read_remote b.disk
          (network reads other net (suc k))
          b.cluster
          path
          a.cluster.local_fs.my_node_name
          (pos 0)
        ≡ through (read_local a.disk (local_open_read a.cluster.local_fs path))
  unfolding read_remote
  asks k a b path s nodes peer plain known at found file own =
      let asked = own_answer k 1 a peer.public_addr path s nodes plain at found file own in
      rw (read_remote, known, asked)
        (answered (read_local a.disk (local_open_read a.cluster.local_fs path)))

  remote_read :
      (k : ℕ) (a b : Server) (path : Text) (s s' : FileStat) (nodes nodes' : ChildNodes)
      (peer : NodeInfo)
      → IsPlainPath path
      → s'.owner_node ≡ a.cluster.local_fs.my_node_name
      → a.cluster.local_fs.my_node_name ≢ b.cluster.local_fs.my_node_name
      → lookup a.cluster.local_fs.my_node_name b.cluster.peers ≡ some peer
      → net peer.public_addr ≡ some a
      → node_at a.cluster.dfs_root (names_of path) ≡ some (tree_node s nodes)
      → s.dir ≡ false
      → s.owner_node ≡ a.cluster.local_fs.my_node_name
      → open_read b.disk
          (network reads other net (suc k))
          b.cluster
          path
          (record { stat = s'; children = nodes' })
          (pos 0)
        ≡ through (read_local a.disk (local_open_read a.cluster.local_fs path))
  unfolding open_read read_remote
  remote_read k a b path s s' nodes nodes' peer plain owned ne known at found file own =
      ap
        (λ o.
          if o == b.cluster.local_fs.my_node_name
          then read_local b.disk (local_open_read b.cluster.local_fs path)
          else read_remote b.disk (network reads other net (suc k)) b.cluster path o (pos 0))
        owned
      ∙ rw (==_ne a.cluster.local_fs.my_node_name b.cluster.local_fs.my_node_name ne)
          (asks k a b path s nodes peer plain known at found file own)

  -- A file of the node `a`, by the trees of both nodes, that is asked for at the node `b`: over HTTP and
  -- over FTP, `b` gives what `a` reads from its disk, if a URL can have the path as it is, and the address that `b` has of `a` is that of `a`.
  pub transparent :
      (k : ℕ) (a b : Server) (x : Text) (q : List Text) (s s' : FileStat)
      (nodes nodes' : ChildNodes) (peer : NodeInfo)
      → All IsName (x ∷ q)
      → IsPlainPath (join (x ∷ q) slash)
      → a.cluster.local_fs.my_node_name ≢ b.cluster.local_fs.my_node_name
      → lookup a.cluster.local_fs.my_node_name b.cluster.peers ≡ some peer
      → net peer.public_addr ≡ some a
      → node_at a.cluster.dfs_root (x ∷ q) ≡ some (tree_node s nodes)
      → s.dir ≡ false
      → s.owner_node ≡ a.cluster.local_fs.my_node_name
      → node_at b.cluster.dfs_root (x ∷ q) ≡ some (tree_node s' nodes')
      → s'.dir ≡ false
      → s'.owner_node ≡ a.cluster.local_fs.my_node_name
      → let read =
          through (read_local a.disk (local_open_read a.cluster.local_fs (join (x ∷ q) slash))) in
        (fs b.disk (network reads other net (suc k)) b.cluster (plain_request (join (x ∷ q) slash))
          ≡ returns (read_response read))
        × (get_file b.disk
              (network reads other net (suc k))
              b.cluster
              (b'/' ∷ join (x ∷ q) slash)
              (pos 0)
            ≡ returns (read_result s'.size_in_bytes read))
  transparent k a b x q s s' nodes nodes' peer h plain ne known at found file own found' file'
        own' =
      let (http, ftp) =
        both_read b.disk (network reads other net (suc k)) b.cluster x q s' nodes' h found' file' in
      let named = names_of-join x q h in
      let read =
        remote_read k a b (join (x ∷ q) slash) s s' nodes nodes' peer plain own' ne known at
          (ap (node_at a.cluster.dfs_root) named ∙ found) file own in
      (
        http ∙ ap (λ r. returns (read_response r)) read,
        ftp ∙ ap (λ r. returns (read_result s'.size_in_bytes r)) read,
      )
