-- ===== src/HttpFace/Files.antt =====
-- A file over HTTP and over FTP.
use dftp.Base.{
  pos, Bool, false, not, List, [], ◌∷◌, ◌++◌, Option, none, some, Text, codes, if◌then◌else◌, All,
  Outcome, returns, ◌>>=◌, ◌≡◌, refl, ap, ◌∙◌,
}
use dftp.Strings.{join, trim_prefix, trim_suffix, slash}
use dftp.Strings.Laws.{trim_prefix-append}
use dftp.Strings.Ends.{
  IsName, join-EndsPlain, join-BeginsPlain, trim_prefix-BeginsPlain, trim_suffix-EndsPlain,
}
use dftp.Strings.Number.{atoi}
use dftp.Fat.{FileStat, TreeNode, tree_node, ChildNodes, get_readonly, seek}
use dftp.Fat.Paths.{node_at}
use dftp.Fat.Names.{seek-join}
use dftp.Cluster.{Cluster}
use dftp.Proxy.{RemoteRequest, HttpAnswer, open_read}
use dftp.Ftp
use dftp.Ftp.{FtpResult, fails, not_a_file, read_result, get_file, normalize_path}
use dftp.Ftp.Views.{normalize_path-join}
use dftp.HttpFace.{
  Request, Response, not_found, read_response, request_path, serve_entry, serve_file, fs,
}

request_path-join :
    (x : Text) (q : List Text)
    → All IsName (x ∷ q)
    → request_path (codes "/fs/" ++ join (x ∷ q) slash) ≡ join (x ∷ q) slash
unfolding request_path
request_path-join x q h =
    ap (λ t. trim_prefix (trim_suffix t slash) slash)
      (trim_prefix-append (codes "/fs/") (join (x ∷ q) slash))
    ∙ ap (λ t. trim_prefix t slash)
        (trim_suffix-EndsPlain (join (x ∷ q) slash) (join-EndsPlain x q h))
    ∙ trim_prefix-BeginsPlain (join (x ∷ q) slash) (join-BeginsPlain x q h)

first_case : {A : Type 0} (b : Bool) (x y : A) → b ≡ false → (if not b then x else y) ≡ x
first_case b x y e = rw e refl

second_case : {A : Type 0} (b : Bool) (x y : A) → b ≡ false → (if b then x else y) ≡ y
second_case b x y e = rw e refl

seek-then :
    {R : Type 0} (root : TreeNode) (p p' : Text) (o : Option TreeNode)
    (K : Text → Option TreeNode → Outcome R)
    → p ≡ p'
    → seek root p' ≡ returns o
    → (seek root p >>= K p) ≡ K p' o
seek-then root p p' o K e k = ap (λ z. seek root z >>= K z) e ∙ ap (λ m. m >>= K p') k

-- The request for a path, with nothing else in it.
abbrev pub plain_request : Text → Request
plain_request path = record { url_path = codes "/fs/" ++ path; form_redir_n = [] }

module _ (disk : Text → Option Text) (get : RemoteRequest → HttpAnswer) (c : Cluster) where
  -- Both servers pass on what the proxy reads under the path, with no redirect so far.
  abbrev pub BothRead : Text → FileStat → ChildNodes → Type 0
  BothRead path s nodes =
      let r = open_read disk get c path (record { stat = s; children = nodes }) (pos 0) in
      (fs disk get c (plain_request path) ≡ returns (read_response r))
      × (get_file disk get c (b'/' ∷ path) (pos 0) ≡ returns (read_result s.size_in_bytes r))

  serve_plain :
      (path : Text) (s : FileStat) (nodes : ChildNodes)
      → s.dir ≡ false
      → serve_entry disk get c (plain_request path) path (record { stat = s; children = nodes })
        ≡ read_response (open_read disk get c path (record { stat = s; children = nodes }) (pos 0))
  unfolding serve_entry serve_file atoi
  serve_plain path s nodes d = first_case s.dir _ _ d

  abbrev pub entry_or_404 : Text → Text → Option TreeNode → Outcome Response
  entry_or_404 path p o = returns (elim o [
    | none ↦ not_found p
    | some entry ↦ serve_entry disk get c (plain_request path) p (get_readonly entry)
  ])

  pub fs-seek :
      (path p : Text) (o : Option TreeNode)
      → request_path (codes "/fs/" ++ path) ≡ p
      → seek c.dfs_root p ≡ returns o
      → fs disk get c (plain_request path) ≡ entry_or_404 path p o
  unfolding fs
  fs-seek path p o e k =
      seek-then c.dfs_root (request_path (codes "/fs/" ++ path)) p o (entry_or_404 path) e k

  http_file :
      (path : Text) (s : FileStat) (nodes : ChildNodes)
      → request_path (codes "/fs/" ++ path) ≡ path
      → seek c.dfs_root path ≡ returns (some (tree_node s nodes))
      → s.dir ≡ false
      → fs disk get c (plain_request path)
        ≡ returns (
            read_response
              (open_read disk get c path (record { stat = s; children = nodes }) (pos 0)))
  http_file path s nodes e k d =
      fs-seek path path (some (tree_node s nodes)) e k ∙ ap returns (serve_plain path s nodes d)

  ftp_file :
      (path : Text) (s : FileStat) (nodes : ChildNodes)
      → normalize_path (b'/' ∷ path) ≡ path
      → seek c.dfs_root path ≡ returns (some (tree_node s nodes))
      → s.dir ≡ false
      → get_file disk get c (b'/' ∷ path) (pos 0)
        ≡ returns (
            read_result s.size_in_bytes
              (open_read disk get c path (record { stat = s; children = nodes }) (pos 0)))
  unfolding get_file
  ftp_file path s nodes e k d =
      seek-then c.dfs_root (normalize_path (b'/' ∷ path)) path (some (tree_node s nodes))
        (λ z o. returns (elim o [
          | none ↦ fails Ftp.not_found
          | some entry ↦
              if (get_readonly entry).stat.dir
              then fails not_a_file
              else read_result (get_readonly entry).stat.size_in_bytes
                  (open_read disk get c z (get_readonly entry) (pos 0))
        ]))
        e k
      ∙ ap returns (second_case s.dir _ _ d)

  -- For a path of names that leads to a node that is no directory, `Fs` and `GetFile` both pass on
  -- what the proxy reads under the path with no redirect so far, whether the stat marks the file as
  -- deleted or not.
  pub both_read :
      (x : Text) (q : List Text) (s : FileStat) (nodes : ChildNodes)
      → All IsName (x ∷ q)
      → node_at c.dfs_root (x ∷ q) ≡ some (tree_node s nodes)
      → s.dir ≡ false
      → BothRead (join (x ∷ q) slash) s nodes
  both_read x q s nodes h k d =
      let found : seek c.dfs_root (join (x ∷ q) slash) ≡ returns (some (tree_node s nodes)) =
        seek-join c.dfs_root x q h ∙ ap returns k in
      (
        http_file (join (x ∷ q) slash) s nodes (request_path-join x q h) found d,
        ftp_file (join (x ∷ q) slash) s nodes (normalize_path-join x q h).0 found d,
      )
