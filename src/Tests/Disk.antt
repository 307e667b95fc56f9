-- ===== src/Tests/Disk.antt =====
-- The local directory and the start of the program: runs and witnesses.
use mathlib.Core.List.Perm
use dftp.Base.{
  ℕ, pos, true, false, map, [], ◌∷◌, some, Text, codes, text_eq, path_eq, byte_eq, ◌≡◌, ◌≢◌, refl,
}
use dftp.LocalFs.{LocalFs, new_local_fs, Visit, scan_loop}
use dftp.LocalFs.RoundTrip.{Reopens, scan_visit-opens}
use dftp.FilePath.{join_path}
use dftp.FilePath.Elements.{IsElement}
use dftp.Main.{Options, main}
use dftp.Main.Starts.{StartsAs, main-starts}
use dftp.Strings.{has_prefix, has_suffix, trim_prefix, join}
use dftp.Fat.{zero_stat, TreeNode, tree_node, ChildNodes, no_children, child, get_filestat}
use dftp.Update.{owner_loop, recalculate_owner}
use dftp.Update.Owners.{recalculate_owner-perm}

abbrev pub notes : Visit
notes = record {
  path = codes "/data/notes.txt";
  failed = false;
  name = codes "notes.txt";
  is_dir = false;
  mode = 0;
  mod_time = pos 3;
  size = pos 20;
}

abbrev pub options : Options
options = record {
  dfs_root = codes "/data";
  dfs_mount_point = codes "/docs";
  my_node_name = codes "other";
  http_addr = codes ":7040";
  ftp_addr = [];
  multicast_addr = [];
  cluster_name = codes "dftp";
  http_mgmt_addr = codes ":7041";
}

abbrev pub data_dir : LocalFs
unfolding new_local_fs
data_dir = new_local_fs (codes "/data") (codes "/docs") (codes "h1")

scan_test :
    map (λ fa. fa.full_name) (scan_loop data_dir (pos 9) [] (notes ∷ []))
    ≡ codes "docs/notes.txt" ∷ []
unfolding data_dir new_local_fs scan_loop has_prefix has_suffix trim_prefix join_path text_eq
    byte_eq
scan_test = refl

main-starts_example :
    StartsAs
      (codes "h1")
      options
      (pos 9)
      (notes ∷ [])
      (pos 10)
      (main (some (codes "h1")) options (pos 9) (notes ∷ []) (pos 10))
main-starts_example = main-starts (codes "h1") options (pos 9) (notes ∷ []) (pos 10) (λ e. cc)

pub element : (c : ℕ) → c ≢ b'/' → c ≢ b'.' → IsElement (c ∷ [])
element c h k = ((λ e. cc, (h, tt)), (λ e. k (cc)), (λ e. cc))

abbrev pub a_dir : LocalFs
a_dir = record data_dir { local_root = codes "/d/"; dfs_mount_point = codes "m" }

abbrev pub visit_a : Visit
visit_a = record notes { path = codes "/d/a" }

scan_visit-opens_example : Reopens a_dir (pos 9) [] visit_a (codes "m/a")
unfolding join data_dir
scan_visit-opens_example =
    scan_visit-opens a_dir (pos 9) [] visit_a (codes "d") [] (codes "m" ∷ []) (codes "a") []
      (element b'd' (λ e. cc) (λ e. cc), tt) (element b'm' (λ e. cc) (λ e. cc), tt)
      (element b'a' (λ e. cc) (λ e. cc), tt) refl refl refl refl

abbrev owned : Text → TreeNode
owned owner = tree_node (record zero_stat { owner_node = owner }) no_children

abbrev two_owners : ChildNodes
two_owners = child (codes "b") (owned (codes "n2")) no_children

recalculate_owner-perm_example :
    get_filestat (
      recalculate_owner (
        tree_node
          (record zero_stat { dir = true })
          (child (codes "a") (owned (codes "n1")) two_owners)))
    ≡ get_filestat (
        recalculate_owner (
          tree_node
            (record zero_stat { dir = true })
            (child
              (codes "b")
              (owned (codes "n2"))
              (child (codes "a") (owned (codes "n1")) no_children))))
recalculate_owner-perm_example =
    recalculate_owner-perm (record zero_stat { dir = true })
      (child (codes "a") (owned (codes "n1")) two_owners)
      (child (codes "b") (owned (codes "n2")) (child (codes "a") (owned (codes "n1")) no_children))
      (λ e. cc, (λ e. cc, tt)) (Perm.swap _ _ [])

-- With a child that has no owner, the order matters.
owner_order_test :
    (owner_loop [] (child (codes "a") (owned []) two_owners) ≡ codes "n2")
    × (owner_loop []
          (child (codes "b") (owned (codes "n2")) (child (codes "a") (owned []) no_children))
        ≡ codes "(multiple)")
unfolding owner_loop text_eq
owner_order_test = (refl, refl)
