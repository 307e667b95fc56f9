-- ===== src/Main/Starts.antt =====
-- How the program starts.
use dftp.Base.{ℤ, List, [], some, Text, text_eq, Outcome, returns, ◌≡◌, ◌≢◌, refl, ==_ne}
use dftp.Fat.{TreeNode, new_root_node}
use dftp.LocalFs.{LocalFs, new_local_fs, Visit}
use dftp.LocalFs.Scan.{scanned, scan_once_lem}
use dftp.Update.Entries.{TakesIn}
use dftp.Update.Stats.{ready_files}
use dftp.Main.{Options, program, Start, runs, launch, main}

-- The directory that the options describe, after its scan.
abbrev pub first_scan : Text → Options → ℤ → List Visit → LocalFs
first_scan name o scan_t visits =
    scanned (new_local_fs o.dfs_root o.dfs_mount_point name) scan_t visits

-- The program runs a new node of that name, whose tree has taken in what it has scanned.
abbrev pub StartsAs : Text → Options → ℤ → List Visit → ℤ → Outcome Start → Type 0
StartsAs name o scan_t visits now r =
    (root : TreeNode) × (r ≡ returns (runs (program o (first_scan name o scan_t visits, root) now)))
    × ((program o (first_scan name o scan_t visits, root) now).cluster.me.name ≡ name)
    × TakesIn new_root_node root (ready_files (first_scan name o scan_t visits).last_full_scan)

pub launch_lem :
    (name : Text) (o : Options) (scan_t : ℤ) (visits : List Visit) (now : ℤ)
    → StartsAs name o scan_t visits now (launch name o scan_t visits now)
unfolding launch
launch_lem name o scan_t visits now =
    let fs = new_local_fs o.dfs_root o.dfs_mount_point name in
    let (root, e, t) = scan_once_lem fs new_root_node scan_t visits in (root, rw e refl, refl, t)

-- With a hostname and a local root, the program starts a node under the hostname, whatever the option
-- for the name says, and its tree has taken in the first scan.
pub main-starts :
    (hostname : Text) (o : Options) (scan_t : ℤ) (visits : List Visit) (now : ℤ)
    → o.dfs_root ≢ []
    → StartsAs hostname o scan_t visits now (main (some hostname) o scan_t visits now)
unfolding main
main-starts hostname o scan_t visits now ne =
    rw (==_ne o.dfs_root [] ne) (launch_lem hostname o scan_t visits now)
