-- ===== src/HttpFace/Confined.antt =====
-- What the servers give out of the local disk: files below the local root.
use dftp.Base.{
  ℤ, pos, Bool, true, false, not, List, [], ◌∷◌, ◌++◌, Option, none, some, Text, if◌then◌else◌, All,
  Outcome, returns, panics, out_of_fuel, ◌>>=◌, ltb_ℤ, ◌==◌, text_eq, byte_eq, sym, ◌≡◌, refl, ap,
  ◌∙◌,
}
use dftp.Strings.{has_prefix, has_suffix, trim_prefix, join, slash}
use dftp.FilePath.Elements.{IsElement}
use dftp.Fat.{TreeNodeReadonly, get_readonly, seek}
use dftp.LocalFs.{local_file_not_found, opens}
use dftp.LocalFs.RoundTrip.{root_of}
use dftp.LocalFs.Confined.{
  NeverUp, Below, named_elements, local_open_read-Below, named_elements-IsElement,
}
use dftp.Cluster.{Cluster}
use dftp.Proxy.{RemoteRequest, HttpAnswer, read_local, read_remote, open_read}
use dftp.Ftp.{fails, not_a_file, not_implemented, read_result, get_file, normalize_path}
use dftp.HttpFace.{
  Request, request_path, serve_file, serve_entry, fs, read_response, redirect, listing, rows,
  sort_entries, entries_of, redir_n,
}

-- Two disks that hold the same files below a directory.
abbrev pub SameBelow : Text → List Text → (Text → Option Text) → (Text → Option Text) → Type 0
SameBelow r rs disk disk' = (name : Text) → Below r rs name → disk name ≡ disk' name

read_local-same :
    (disk disk' : Text → Option Text) (name : Text)
    → disk name ≡ disk' name
    → read_local disk (opens name) ≡ read_local disk' (opens name)
read_local-same disk disk' name e = rw (e, read_local) refl

if-same :
    (b : Bool) (disk disk' : Text → Option Text) (name : Text)
    → disk name ≡ disk' name
    → read_local disk (if b then opens name else local_file_not_found)
      ≡ read_local disk' (if b then opens name else local_file_not_found)
if-same true disk disk' name e = read_local-same disk disk' name e
if-same false disk disk' name e = refl

found-same :
    {A B : Type 0} (m : Outcome (Option A)) (lost : B) (f g : A → B)
    → ((a : A) → f a ≡ g a)
    → (m >>= λ o. returns (elim o [ none ↦ lost | some a ↦ f a ]))
      ≡ (m >>= λ o. returns (elim o [ none ↦ lost | some a ↦ g a ]))
found-same (returns none) lost f g e = refl
found-same (returns (some a)) lost f g e = ap returns (e a)
found-same panics lost f g e = refl
found-same out_of_fuel lost f g e = refl

module _ (disk disk' : Text → Option Text) (get : RemoteRequest → HttpAnswer) (c : Cluster)
    (r : Text) (rs : List Text) (hr : All IsElement (r ∷ rs))
    (er : c.local_fs.local_root ≡ root_of r rs) (same : SameBelow r rs disk disk') where
  open_read-same :
      (path : Text) (entry : TreeNodeReadonly) (n : ℤ)
      → NeverUp (trim_prefix path c.local_fs.dfs_mount_point)
      → open_read disk get c path entry n ≡ open_read disk' get c path entry n
  unfolding open_read read_remote
  open_read-same path entry n no_up =
      let rest = trim_prefix path c.local_fs.dfs_mount_point in
      let names = named_elements rest in
      let elements = named_elements-IsElement rest no_up in
      let name = b'/' ∷ join (r ∷ rs ++ names) slash in
      let found = has_prefix path c.local_fs.dfs_mount_point in
      let opened = local_open_read-Below c.local_fs r rs path hr er no_up in
      ap
        (λ x.
          if entry.stat.owner_node == c.local_fs.my_node_name
          then x
          else read_remote disk get c path entry.stat.owner_node n)
        (ap (read_local disk) opened
          ∙ if-same found disk disk' name (same name (names, elements, refl))
          ∙ ap (read_local disk') (sym opened))

  serve_entry-same :
      (request : Request) (path : Text) (ro : TreeNodeReadonly)
      → NeverUp (trim_prefix path c.local_fs.dfs_mount_point)
      → serve_entry disk get c request path ro ≡ serve_entry disk' get c request path ro
  unfolding serve_entry serve_file
  serve_entry-same request path ro no_up =
      ap
        (λ x.
          if not ro.stat.dir
          then read_response x
          else if not (has_suffix request.url_path slash)
          then redirect (request.url_path ++ slash)
          else listing path (not (path == [])) (rows (sort_entries (entries_of ro.children))))
        (open_read-same path ro (redir_n request) no_up)

  -- Whether a file is read over HTTP or over FTP, by a path without `..` after the mount point, the
  -- result is the same on any two disks that hold the same files below the local root, if this is an
  -- absolute path other than `/`, written as Clean leaves it.
  pub confined :
      (request : Request) (path : Text) (offset : ℤ)
      → NeverUp (trim_prefix (request_path request.url_path) c.local_fs.dfs_mount_point)
      → NeverUp (trim_prefix (normalize_path path) c.local_fs.dfs_mount_point)
      → (fs disk get c request ≡ fs disk' get c request)
        × (get_file disk get c path offset ≡ get_file disk' get c path offset)
  unfolding fs serve_entry serve_file get_file
  confined request path offset no_up no_up' = (
    found-same (seek c.dfs_root (request_path request.url_path)) _ _ _ (λ entry.
        serve_entry-same request (request_path request.url_path) (get_readonly entry) no_up),
    ap (λ x. if ltb_ℤ (pos 0) offset then returns (fails not_implemented) else x)
        (found-same (seek c.dfs_root (normalize_path path)) _ _ _ (λ entry.
          ap
            (λ x.
              if (get_readonly entry).stat.dir
              then fails not_a_file
              else read_result (get_readonly entry).stat.size_in_bytes x)
            (open_read-same (normalize_path path) (get_readonly entry) (pos 0) no_up'))),
  )
