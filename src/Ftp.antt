-- ===== src/Ftp.antt =====
-- src/dftp/ftpface/server.go: the driver that the FTP server (github.com/goftp/server) calls. The
-- callback of `ListDir` is that server's: a function over a state of its own.
pub mod Views
pub mod Server
pub mod Address
use dftp.Base.{
  ℤ, pos, ltb_ℤ, Bool, true, false, not, List, [], ◌∷◌, Option, none, some, Text, ◌==◌, text_eq,
  if◌then◌else◌, Outcome, returns, panics, ◌>>=◌, ◌≡◌, refl,
}
use dftp.Strings.{trim_prefix, trim_suffix, slash}
use dftp.Fat.{
  FileStat, is_deleted, TreeNode, TreeNodeReadonly, ChildNodes, no_children, child, get_filestat,
  get_readonly, seek,
}
use dftp.Cluster.{Cluster}
use dftp.Proxy.{ReadError, ReadResult, contents, failed, RemoteRequest, HttpAnswer, open_read}

pub data FtpError : Type 0 where
  read_only_access not_implemented not_found not_a_file not_a_directory : FtpError
  read_error : ReadError → FtpError

pub data FtpResult (A : Type 0) : Type 0 where
  done : A → FtpResult A
  fails : FtpError → FtpResult A

-- `normalizePath`
unfoldable pub normalize_path : Text → Text
unfolding trim_prefix trim_suffix
normalize_path path = trim_prefix (trim_suffix path slash) slash

-- A lookup of the path, and what to do with the node that is there.
abbrev with_entry :
    {A : Type 0} → TreeNode → Text → (TreeNodeReadonly → FtpResult A) → Outcome (FtpResult A)
with_entry root path found = seek root (normalize_path path) >>= λ o.
    returns (elim o [ none ↦ fails not_found | some entry ↦ found (get_readonly entry) ])

-- `Driver.Stat`
unfoldable pub stat : TreeNode → Text → Outcome (FtpResult FileStat)
unfolding normalize_path seek
stat root path = with_entry root path (λ ro. done ro.stat)

-- `Driver.ChangeDir`
unfoldable pub change_dir : TreeNode → Text → Outcome (FtpResult (Unit {0}))
unfolding normalize_path seek
change_dir root path =
    with_entry root path (λ ro. if not ro.stat.dir then fails not_a_directory else done tt)

-- What `ListDir` ends in: an error of its own, or the callback's last state with its error, if any.
module _ {S E : Type 0} (callback : S → FileStat → S × Option E) where
  -- The loop of `ListDir`
  unfoldable pub list_loop : ChildNodes → S → S × Option E
  list_loop no_children s = (s, none)
  list_loop (child name e rest) s =
      let skipped = list_loop rest s in
      let (s', err) = callback s (get_filestat e) in
      let more = list_loop rest s' in
      if is_deleted (get_filestat e)
      then skipped
      else (elim err [ none ↦ more | some x ↦ (s', some x) ])

  -- `Driver.ListDir`
  unfoldable pub list_dir : TreeNode → Text → S → Outcome (FtpResult (S × Option E))
  unfolding normalize_path seek list_loop
  list_dir root path s =
      with_entry root path
        (λ ro. if not ro.stat.dir then fails not_a_directory else done (list_loop ro.children s))

-- `Driver.DeleteDir`, `DeleteFile`, `MakeDir` and `Rename`
abbrev pub delete_dir : Text → FtpResult (Unit {0})
delete_dir path = fails read_only_access

abbrev pub delete_file : Text → FtpResult (Unit {0})
delete_file path = fails read_only_access

abbrev pub rename : Text → Text → FtpResult (Unit {0})
rename path_from path_to = fails read_only_access

abbrev pub make_dir : Text → FtpResult (Unit {0})
make_dir path = fails read_only_access

-- `Driver.PutFile`
abbrev pub put_file : Text → Text → Bool → FtpResult ℤ
put_file path bytes append_data = fails not_implemented

abbrev pub read_result : ℤ → ReadResult → FtpResult (ℤ × Text)
read_result size (contents body) = done (size, body)
read_result size (failed e) = fails (read_error e)

module _ (disk : Text → Option Text) (get : RemoteRequest → HttpAnswer) (c : Cluster) where
  -- `Driver.GetFile`: the size of the stat and what the reader gives.
  unfoldable pub get_file : Text → ℤ → Outcome (FtpResult (ℤ × Text))
  unfolding normalize_path seek open_read
  get_file path offset =
      if ltb_ℤ (pos 0) offset
      then returns (fails not_implemented)
      else with_entry c.dfs_root path (λ ro.
        if ro.stat.dir
        then fails not_a_file
        else read_result ro.stat.size_in_bytes
            (open_read disk get c (normalize_path path) ro (pos 0)))
