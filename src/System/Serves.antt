-- ===== src/System/Serves.antt =====
-- A file from the disk of one node of a system to a reader at any other one.
use dftp.Base.{
  true, ℕ, suc, pos, List, ◌∷◌, ◌++◌, Option, some, Text, text_eq, byte_eq, Among, refl, among-All,
  returns, ◌≡◌, ◌≢◌, ap, ◌∙◌, sym,
}
use dftp.Base.Assoc.{lookup}
use dftp.Strings.{join, slash}
use dftp.FilePath.Elements.{elements-IsName}
use dftp.Fat.Paths.{node_at}
use dftp.Update.{FileAnnouncement}
use dftp.Update.Alone.{IsAlone}
use dftp.LocalFs.{LocalFs, Visit, announced, opens, local_open_read}
use dftp.Cluster.{NodeInfo, UpdateData}
use dftp.Proxy.{RemoteRequest, HttpAnswer, read_local}
use dftp.Proxy.Redirects.{ReadsPlain, has_url_bytes, Server, network}
use dftp.Ftp.{get_file, read_result}
use dftp.HttpFace.{fs, read_response}
use dftp.HttpFace.Files.{plain_request}
use dftp.HttpFace.Remote.{through, transparent}
use dftp.HttpFace.Shared.{IsVisit, node_of, names, opens_it, announced-IsFile}
use dftp.Main.Nodes.{me-name}
use dftp.System.{Started, Member, new_system, System, Run, Carried}
use dftp.System.Members.{Run-members}
use dftp.System.Settled.{HasHeardAll}
use dftp.System.Spread.{Runs}
use dftp.System.Alone.{all_scanned, settles-IsAlone}

-- What the program announces of a visited file.
abbrev pub announces : Started → Visit → FileAnnouncement
announces p v = announced p.start.cluster.local_fs p.scan_t v

-- The file that the program has visited is asked for at the server: over HTTP and over FTP, what a disk
-- holds under the visited path is the answer.
abbrev pub ServesVisit :
    Started
    → Visit
    → List Text
    → (Text → Option Text)
    → (RemoteRequest → HttpAnswer)
    → Server
    → Type 0
ServesVisit p v path disk get b =
    let read = through (read_local disk (opens v.path)) in
    (fs b.disk get b.cluster (plain_request (join path slash)) ≡ returns (read_response read))
    × (get_file b.disk get b.cluster (b'/' ∷ join path slash) (pos 0)
        ≡ returns (read_result (announces p v).stat.size_in_bytes read))

module _ (ps : List Started) {s : System} (a m : Member) (p : Started) (v : Visit) (y : Text)
    (q : List Text) (before after : List FileAnnouncement) where
  pub serves :
      (json : UpdateData → UpdateData) (reads : RemoteRequest → RemoteRequest)
      (other : RemoteRequest → HttpAnswer) (net : Text → Option Server) (k : ℕ)
      (disk disk' : Text → Option Text) (peer : NodeInfo)
      → Carried json ps
      → ReadsPlain reads
      → Run json (new_system ps) s
      → Among s.members a
      → Among s.members m
      → Runs p a
      → HasHeardAll ps a
      → HasHeardAll ps m
      → IsVisit p.start.cluster.local_fs p.scan_t v y q
      → has_url_bytes (join (y ∷ q) slash) ≡ true
      → all_scanned ps ≡ before ++ announces p v ∷ after
      → IsAlone (y ∷ q) before after
      → a.cluster.me.name ≢ m.cluster.me.name
      → lookup a.cluster.me.name m.cluster.peers ≡ some peer
      → net peer.public_addr ≡ some (record { cluster = a.cluster; disk = disk })
      → ServesVisit p v
          (y ∷ q)
          disk
          (network reads other net (suc k))
          (record { cluster = m.cluster; disk = disk' })
  serves json reads other net k disk disk' peer c keeps r i i' (same_me, same_fs) all all' h bytes e
        alone ne known at =
      let fa = announces p v in
      let members = Run-members json ps c r in
      let elements = names p.start.cluster.local_fs p.scan_t v y q h in
      let file = announced-IsFile p.start.cluster.local_fs p.scan_t v y q h in
      let stat = settles-IsAlone fa y q file before after alone ps in
      let (nodes, found) =
        node_of (node_at a.cluster.dfs_root (y ∷ q)) fa.stat
          (stat a (among-All _ s.members i members) all e) in
      let (nodes', found') =
        node_of (node_at m.cluster.dfs_root (y ∷ q)) fa.stat
          (stat m (among-All _ s.members i' members) all' e) in
      let own : fa.stat.owner_node ≡ a.cluster.local_fs.my_node_name =
        ap (λ (z : LocalFs). z.my_node_name) (sym same_fs) in
      let (http, ftp) =
        transparent reads keeps other net k (record { cluster = a.cluster; disk = disk })
          (record { cluster = m.cluster; disk = disk' }) y q fa.stat fa.stat nodes nodes' peer
          (elements-IsName (y ∷ q) elements)
          (record { x = y; q = q; elements = elements; joined = refl; bytes = bytes })
          (λ z. ne (me-name a.node ∙ z ∙ sym (me-name m.node))) (rw (← me-name a.node) known) at
          found h.not_dir own found' h.not_dir own in
      let opened : local_open_read a.cluster.local_fs (join (y ∷ q) slash) ≡ opens v.path =
        ap (λ z. local_open_read z (join (y ∷ q) slash)) same_fs
        ∙ opens_it p.start.cluster.local_fs p.scan_t v y q h in
      (
        http ∙ ap (λ o. returns (read_response (through (read_local disk o)))) opened,
        ftp
            ∙ ap (λ o. returns (read_result fa.stat.size_in_bytes (through (read_local disk o))))
                opened,
      )
