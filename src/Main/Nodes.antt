-- ===== src/Main/Nodes.antt =====
-- A program that was started, and what its node's tree has taken in since.
use dftp.Base.{ℤ, List, ◌∷◌, Option, Text, text_eq, All, returns, ◌≡◌, refl, ap, ◌∙◌, sym}
use dftp.Fat.{new_root_node}
use dftp.Update.{FileAnnouncement}
use dftp.Update.Stats.{IsFresh}
use dftp.Update.Runs.{update_all}
use dftp.Update.Trees.{update_all-IsTree}
use dftp.Fat.Trees.{IsTree}
use dftp.LocalFs.{LocalFs, Visit}
use dftp.Cluster.{Cluster, NodeInfo}
use dftp.Exchange.{full_update}
use dftp.Node.{Step, Reach, next}
use dftp.Node.Named.{Reach-IsNamed}
use dftp.Node.Heard.{heard, Reach-heard}
use dftp.Main.{Options, Program, runs, main}
use dftp.Main.Launches.{HasScanned, main-HasScanned}

-- A node that was started, and has come into this state since.
pub record Node (c : Cluster) : Type 0 where
  pub hostname : Option Text
  pub options : Options
  pub scan_t : ℤ
  pub visits : List Visit
  pub now : ℤ
  pub start : Program
  pub started : main hostname options scan_t visits now ≡ returns (runs start)
  pub run : Reach start.cluster c

-- All the batches that its tree has taken in: its own scan, and then what it has heard.
abbrev pub batches : {c : Cluster} → Node c → List (List FileAnnouncement)
batches n = n.start.cluster.local_fs.last_full_scan ∷ heard n.run

start-HasScanned : {c : Cluster} (n : Node c) → HasScanned n.start.cluster
start-HasScanned n = main-HasScanned n.options n.scan_t n.visits n.now n.start n.hostname n.started

-- The directory that a node has scanned, and what it sends, stay as they were.
pub scan-kept : {c : Cluster} (n : Node c) → c.local_fs ≡ n.start.cluster.local_fs
scan-kept n = (Reach-IsNamed _ _ (start-HasScanned n).2 n.run).same_fs

pub batches-update :
    {c : Cluster} (n : Node c) → update_all new_root_node (batches n) ≡ returns c.dfs_root
unfolding update_all
batches-update n = rw ((start-HasScanned n).0) (Reach-heard n.run)

pub batches-IsFresh :
    {c : Cluster} (n : Node c) → All (All IsFresh) (heard n.run) → All (All IsFresh) (batches n)
batches-IsFresh n h = ((start-HasScanned n).1, h)

abbrev pub own_scan : Cluster → List FileAnnouncement
own_scan c = c.local_fs.last_full_scan

pub own_scan-IsFresh : {c : Cluster} (n : Node c) → All IsFresh (own_scan c)
own_scan-IsFresh n = rw (scan-kept n) ((start-HasScanned n).1)

-- A node after one more step.
abbrev pub after_step : {c d : Cluster} → Node c → Step c d → Node d
after_step n s = record {
  hostname = n.hostname;
  options = n.options;
  scan_t = n.scan_t;
  visits = n.visits;
  now = n.now;
  start = n.start;
  started = n.started;
  run = next n.run s;
}

pub me_stays : {c d : Cluster} (n : Node c) (s : Step c d) → d.me ≡ c.me
me_stays n s =
    (Reach-IsNamed _ _ (start-HasScanned n).2 (next n.run s)).same_me
    ∙ sym ((Reach-IsNamed _ _ (start-HasScanned n).2 n.run).same_me)

pub fs_stays : {c d : Cluster} (n : Node c) (s : Step c d) → d.local_fs ≡ c.local_fs
fs_stays n s = scan-kept (after_step n s) ∙ sym (scan-kept n)

-- The update that a node sends is always the same.
pub full_update_stays : {c d : Cluster} (n : Node c) (s : Step c d) → full_update d ≡ full_update c
full_update_stays n s = rw (me_stays n s, fs_stays n s) refl

-- In the tree of a node that was started, whatever has reached it since, the names of the children of
-- each directory differ.
pub dfs_root-IsTree : {c : Cluster} (n : Node c) → IsTree c.dfs_root
dfs_root-IsTree n = update_all-IsTree (batches n) (batches-update n)

-- The name in a node's own record is that of its directory.
pub me-name : {c : Cluster} (n : Node c) → c.me.name ≡ c.local_fs.my_node_name
me-name n =
    let h = Reach-IsNamed _ _ (start-HasScanned n).2 n.run in
    ap (λ (z : NodeInfo). z.name) h.same_me
    ∙ (start-HasScanned n).3
    ∙ ap (λ (z : LocalFs). z.my_node_name) (sym h.same_fs)
