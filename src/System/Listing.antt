-- ===== src/System/Listing.antt =====
-- The listings of all paths in a system once its nodes have heard from each other.
use dftp.Base.{List, ◌∷◌, Text, text_eq, ◌≡◌, Among, All, among-All, ap, ◌∙◌, sym}
use dftp.FilePath.Elements.{IsElement}
use dftp.Fat.{new_root_node, lookup_child}
use dftp.Fat.Paths.{node_at}
use dftp.Update.{parts}
use dftp.Update.Runs.{all_ready}
use dftp.Update.Through.{there, through, same_truth, through-among, through-All}
use dftp.Update.Shape.{update_all-Grows}
use dftp.HttpFace.Find.{HasElements}
use dftp.HttpFace.Same.{HasElements-paths, SameLines, find-same}
use dftp.Main.Launches.{returns-injective}
use dftp.Main.Nodes.{batches, batches-update, dfs_root-IsTree}
use dftp.Cluster.{UpdateData}
use dftp.System.{Started, Member, new_system, System, Run, Carried}
use dftp.System.Known.{MemberKnown}
use dftp.System.Members.{Belongs, OwnUpdate, Run-members}
use dftp.System.Settled.{scans, HasHeardAll, all_ready-among, batches-among, batches-IsFresh}

module _ (ps : List Started) (m : Member) (k : MemberKnown (Belongs ps) (OwnUpdate ps) m)
    (all : HasHeardAll ps m) where
  -- The nodes of the tree are those that the scans make.
  shape :
      (x : Text) (q : List Text)
      → there (node_at m.cluster.dfs_root (x ∷ q)) ≡ through (x ∷ q) (all_ready (scans ps))
  unfolding node_at lookup_child
  shape x q =
      let only = all_ready-among (batches m.node) (scans ps) (batches-among ps m k) in
      let every = all_ready-among (scans ps) (batches m.node) all in
      let (root, e, makes) =
        update_all-Grows new_root_node (batches m.node) (batches-IsFresh ps m k) in
      let same : root ≡ m.cluster.dfs_root =
        returns-injective root m.cluster.dfs_root (sym e ∙ batches-update m.node) in
      ap (λ z. there (node_at z (x ∷ q))) (sym same)
      ∙ makes x q
      ∙ same_truth (through (x ∷ q) (all_ready (batches m.node)))
          (through (x ∷ q) (all_ready (scans ps)))
          (through-among (x ∷ q) (all_ready (batches m.node)) (all_ready (scans ps)) only)
          (through-among (x ∷ q) (all_ready (scans ps)) (all_ready (batches m.node)) every)

  tree-HasElements :
      All (λ fa. All IsElement (parts fa)) (all_ready (scans ps)) → HasElements m.cluster.dfs_root
  tree-HasElements elements =
      HasElements-paths m.cluster.dfs_root (dfs_root-IsTree m.node)
        λ x q i. through-All IsElement (x ∷ q) (all_ready (scans ps)) elements (sym (shape x q) ∙ i)

-- Programs that were started, and hear nothing from outside but datagrams, requests to join, and
-- requests that bring no greeting and no update: whatever arrives among them, late, repeated, out of
-- order or never, the listings of all paths of two nodes that have taken in the scan of each program
-- at least once have the same lines, in some order, if no name in a path that was scanned is empty,
-- `.` or `..`, or holds a slash, and the updates of the programs are decoded as they were
-- encoded, as those of valid UTF-8 are.
pub same_listing :
    (json : UpdateData → UpdateData) (ps : List Started) {s : System} (m m' : Member)
    → Carried json ps
    → Run json (new_system ps) s
    → Among s.members m
    → Among s.members m'
    → HasHeardAll ps m
    → HasHeardAll ps m'
    → All (λ fa. All IsElement (parts fa)) (all_ready (scans ps))
    → SameLines m.cluster.dfs_root m'.cluster.dfs_root
same_listing json ps {s} m m' c r i i' all all' elements =
    let known = among-All _ s.members i (Run-members json ps c r) in
    let known' = among-All _ s.members i' (Run-members json ps c r) in
    find-same m.cluster.dfs_root m'.cluster.dfs_root (dfs_root-IsTree m.node)
      (dfs_root-IsTree m'.node) (tree-HasElements ps m known all elements)
      (tree-HasElements ps m' known' all' elements)
      (λ x q. shape ps m known all x q ∙ sym (shape ps m' known' all' x q))
