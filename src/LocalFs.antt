-- ===== src/LocalFs.antt =====
-- src/dftp/localfs: the local directory that a node serves, and its scanner. The node's tree, which
-- Go reaches through `LocalFs.DfsRoot`, is passed on its own.
pub mod Scan
pub mod RoundTrip
pub mod Confined
use dftp.Base.{
  ℕ, ℤ, pos, Bool, true, false, not, List, [], ◌∷◌, ◌++◌, Option, none, some, Text, codes, ◌==◌,
  byte_eq, text_eq, if◌then◌else◌, Outcome, returns, ◌>>=◌, ◌≡◌, refl,
}
use dftp.Strings.{has_prefix, has_suffix, trim_prefix, slash}
use dftp.FilePath.{join_path}
use dftp.Fat.{FileStat, zero_stat, TreeNode}
use dftp.Update.{FileAnnouncement, update}

-- `LocalFs`
pub record LocalFs : Type 0 where
  pub local_root : Text
  pub dfs_mount_point : Text
  pub my_node_name : Text
  pub last_full_scan : List FileAnnouncement
  pub last_full_scan_time : ℤ

-- `NewLocalFs`
unfoldable pub new_local_fs : Text → Text → Text → LocalFs
unfolding has_prefix has_suffix trim_prefix
new_local_fs root mount node_name = record {
  local_root = if not (has_suffix root slash) then root ++ slash else root;
  dfs_mount_point = if has_prefix mount slash then trim_prefix mount slash else mount;
  my_node_name = node_name;
  last_full_scan = [];
  last_full_scan_time = pos 0;
}

-- `GetLastFullScan`
abbrev pub get_last_full_scan : LocalFs → List FileAnnouncement × ℤ
get_last_full_scan fs = (fs.last_full_scan, fs.last_full_scan_time)

-- What `OpenRead` returns: an error, or the file that os.Open is asked for.
pub data OpenResult : Type 0 where
  local_file_not_found : OpenResult
  opens : Text → OpenResult

-- `LocalFs.OpenRead`
unfoldable pub local_open_read : LocalFs → Text → OpenResult
unfolding has_prefix trim_prefix join_path
local_open_read fs dfs_path =
    if not (fs.dfs_mount_point == [])
    then (if not (has_prefix dfs_path fs.dfs_mount_point)
        then local_file_not_found
        else opens (join_path fs.local_root (trim_prefix dfs_path fs.dfs_mount_point)))
    else opens (join_path fs.local_root dfs_path)

-- What filepath.Walk hands to its callback: a path, and an error or the file's info.
pub record Visit : Type 0 where
  pub path : Text
  pub failed : Bool
  pub name : Text
  pub is_dir : Bool
  pub mode : ℕ
  pub mod_time : ℤ
  pub size : ℤ

-- The announcement that the callback makes of what it visits.
abbrev pub announced : LocalFs → ℤ → Visit → FileAnnouncement
announced s scan_t v = record {
  full_name = join_path s.dfs_mount_point (trim_prefix v.path s.local_root);
  stat = record {
    basename = v.name;
    dir = v.is_dir;
    last_modified = v.mod_time;
    last_info_updated = scan_t;
    size_in_bytes = if not v.is_dir then v.size else pos 0;
    file_mode = v.mode;
    owner_node = s.my_node_name;
  };
  full_name_parts = none;
  deletion = false;
}

-- The callback of `ScanOnce`: the files after it.
unfoldable pub scan_visit : LocalFs → ℤ → List FileAnnouncement → Visit → List FileAnnouncement
unfolding trim_prefix join_path
scan_visit s scan_t files v =
    if v.failed
    then files
    else let fa = announced s scan_t v in
      if not (fa.full_name == []) then files ++ fa ∷ [] else files

unfoldable pub scan_loop : LocalFs → ℤ → List FileAnnouncement → List Visit → List FileAnnouncement
unfolding scan_visit
scan_loop s scan_t files [] = files
scan_loop s scan_t files (v ∷ visits) = scan_loop s scan_t (scan_visit s scan_t files v) visits

-- `ScanOnce`, on what the walk visits. The callback never returns an error, so the walk does not.
unfoldable pub scan_once : LocalFs → TreeNode → ℤ → List Visit → Outcome (LocalFs × TreeNode)
unfolding scan_loop update
scan_once s root scan_t visits =
    let files = scan_loop s scan_t [] visits in
    update root files >>= λ root'.
    returns (record s { last_full_scan = files; last_full_scan_time = scan_t }, root')
