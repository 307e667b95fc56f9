-- ===== src/HttpFace.antt =====
-- src/dftp/httpface/server.go: the public HTTP interface, a browser of the tree and a downloader. The
-- rows of a listing are records: their padding, dates and HTML are left out, and so is the guess of
-- a content type.
pub mod Sorting
pub mod Files
pub mod Listings
pub mod Confined
pub mod Routes
pub mod Remote
pub mod Shared
pub mod Find
pub mod Dirs
pub mod Same
use dftp.Base.{
  ℕ, zero, suc, ◌+◌, ◌-◌, ◌*◌, ◌^◌, ℤ, pos, negsuc, ltb, leb, ltb_ℤ, Bool, true, false, not, ◌&&◌,
  ◌||◌, List, [], ◌∷◌, ◌++◌, Option, none, some, Text, codes, length, ◌==◌, byte_eq, text_eq,
  if◌then◌else◌, Outcome, returns, panics, ◌>>=◌, ◌≡◌, refl,
}
use dftp.Strings.{has_suffix, trim_prefix, trim_suffix, take, slash}
use dftp.Strings.Number.{atoi}
use dftp.FilePath.{join_path}
use dftp.Fat.{
  FileStat, is_deleted, TreeNode, tree_node, TreeNodeReadonly, ChildNodes, no_children, child,
  get_filestat, get_readonly, is_dir, seek,
}
use dftp.Cluster.{Cluster}
use dftp.Proxy.{ReadError, ReadResult, contents, failed, RemoteRequest, HttpAnswer, open_read}

-- An entry of a listing, `E`.
pub record Entry : Type 0 where
  pub name : Text
  pub node : TreeNode
  pub sortname : Text

-- Go's `<` on strings.
unfoldable pub text_lt : Text → Text → Bool
text_lt s [] = false
text_lt [] (d ∷ t) = true
text_lt (c ∷ s) (d ∷ t) = let rest = text_lt s t in ltb c d || (c == d) && rest

-- The entries of a directory, directories before files.
unfoldable pub entries_of : ChildNodes → List Entry
entries_of no_children = []
entries_of (child key e rest) =
    (record {
      name = key;
      node = e;
      sortname = if is_dir e then codes "A" ++ key else codes "B" ++ key;
    })
    ∷ entries_of rest

unfoldable pub insert_entry : Entry → List Entry → List Entry
unfolding text_lt
insert_entry e [] = e ∷ []
insert_entry e (f ∷ entries) =
    if text_lt f.sortname e.sortname then f ∷ insert_entry e entries else e ∷ f ∷ entries

-- What `utils.SortSlice` makes of the entries. The names of a directory differ, so the sorted order
-- is the only one.
unfoldable pub sort_entries : List Entry → List Entry
unfolding insert_entry
sort_entries [] = []
sort_entries (e ∷ entries) = insert_entry e (sort_entries entries)

-- A line of a listing: the link, what is shown of it, the spaces after it, and the stat.
pub record Row : Type 0 where
  pub link : Text
  pub display_name : Text
  pub spaces : ℕ
  pub stat : FileStat

-- The UTF-8 bytes of `…`.
abbrev pub ellipsis : Text
ellipsis = 0xe2 ∷ 0x80 ∷ 0xa6 ∷ []

abbrev pub row : Text → FileStat → Row
row name stat = record {
  link = name;
  display_name = if ltb 50 (length name) then take 49 name ++ ellipsis else name;
  spaces = if ltb 50 (length name) then 0 else 50 - length name;
  stat = stat;
}

unfoldable pub rows : List Entry → List Row
rows [] = []
rows (e ∷ entries) =
    let rest = rows entries in
    let stat = get_filestat e.node in
    if is_deleted stat then rest else row (if stat.dir then e.name ++ slash else e.name) stat ∷ rest

-- The parts of a request that `Fs` reads.
pub record Request : Type 0 where
  pub url_path : Text
  pub form_redir_n : Text

pub data Response : Type 0 where
  not_found : Text → Response
  redirect : Text → Response
  listing : Text → Bool → List Row → Response
  file : Text → Response
  read_failed : ReadError → Response

-- `redirN`
abbrev pub redir_n : Request → ℤ
redir_n r = elim (atoi r.form_redir_n) [ none ↦ pos 0 | some n ↦ n ]

abbrev pub read_response : ReadResult → Response
read_response (contents body) = file body
read_response (failed e) = read_failed e

-- `path` in `Fs`
unfoldable pub request_path : Text → Text
unfolding trim_prefix trim_suffix
request_path url_path = trim_prefix (trim_suffix (trim_prefix url_path (codes "/fs/")) slash) slash

module _ (disk : Text → Option Text) (get : RemoteRequest → HttpAnswer) (c : Cluster) where
  -- `ServeFile`
  unfoldable pub serve_file : Request → Text → TreeNodeReadonly → Response
  unfolding open_read atoi
  serve_file r path entry = read_response (open_read disk get c path entry (redir_n r))

  -- The part of `Fs` for a node that is there.
  unfoldable pub serve_entry : Request → Text → TreeNodeReadonly → Response
  unfolding serve_file entries_of sort_entries rows
  serve_entry r path ro =
      if not ro.stat.dir
      then serve_file r path ro
      else if not (has_suffix r.url_path slash)
      then redirect (r.url_path ++ slash)
      else listing path (not (path == [])) (rows (sort_entries (entries_of ro.children)))

  -- `Fs`
  unfoldable pub fs : Request → Outcome Response
  unfolding request_path seek serve_entry
  fs r = seek c.dfs_root (request_path r.url_path) >>= λ o. returns (elim o [
    | none ↦ not_found (request_path r.url_path)
    | some entry ↦ serve_entry r (request_path r.url_path) (get_readonly entry)
  ])

-- `TreeNode.walk` with a callback that returns nil: the paths it is called on.
unfoldable mutual
  pub walk : TreeNode → Text → List Text
  walk (tree_node stat nodes) basepath =
      (if not (basepath == []) then basepath ∷ [] else []) ++ walk_children nodes basepath

  pub walk_children : ChildNodes → Text → List Text
  walk_children no_children basepath = []
  walk_children (child name e rest) basepath =
      walk e (join_path basepath name) ++ walk_children rest basepath

-- The body that `Find` writes.
unfoldable pub find_lines : List Text → Text
find_lines [] = []
find_lines (path ∷ paths) = (slash ++ (path ++ codes "\r\n")) ++ find_lines paths

-- `Find`
unfoldable pub find : TreeNode → Text
unfolding walk find_lines
find root = find_lines (walk root [])
