-- ===== src/HttpFace/Dirs.antt =====
-- A directory over HTTP and over FTP.
use mathlib.Core.List.{Perm, filter_map}
use mathlib.Core.List.Perm
use dftp.Base.{
  true, List, [], ◌∷◌, ◌++◌, map, Option, none, some, Text, codes, text_eq, if◌then◌else◌, All,
  returns, ◌≡◌, ◌≢◌, refl, ap, ◌∙◌, arith, ==_ne,
}
use dftp.Strings.{join, slash, trim_prefix, trim_suffix}
use dftp.Strings.Laws.{trim_prefix-append}
use dftp.Strings.Ends.{
  IsName, join-BeginsPlain, trim_prefix-BeginsPlain, trim_suffix-slash, has_suffix-slash,
}
use dftp.Fat.{
  FileStat, is_deleted, TreeNode, tree_node, ChildNodes, no_children, child, get_filestat,
}
use dftp.Fat.Paths.{node_at}
use dftp.Fat.Names.{seek-join}
use dftp.Cluster.{Cluster}
use dftp.Proxy.{RemoteRequest, HttpAnswer}
use dftp.Ftp.{done, list_dir}
use dftp.Ftp.Views.{live, collect, listed, list_dir-names}
use dftp.HttpFace.{
  Entry, entries_of, sort_entries, Row, rows, listing, request_path, serve_entry, fs,
}
use dftp.HttpFace.Files.{plain_request, fs-seek}
use dftp.HttpFace.Sorting.{sort_entries_lem}

live_stat : Entry → Option FileStat
live_stat e = let s = get_filestat e.node in if is_deleted s then none else some s

row_stats : (es : List Entry) → map (λ r. r.stat) (rows es) ≡ filter_map live_stat es
unfolding rows filter_map live_stat
row_stats [] = refl
row_stats (e ∷ es) = ground (arith, row_stats es)

live_entries : (nodes : ChildNodes) → live nodes ≡ filter_map live_stat (entries_of nodes)
unfolding entries_of filter_map live_stat
live_entries no_children = refl
live_entries (child name e rest) = ground (arith, live_entries rest)

-- The rows of a directory show the children that are not deleted.
rows-perm :
    (nodes : ChildNodes)
    → Perm (map (λ r. r.stat) (rows (sort_entries (entries_of nodes)))) (live nodes)
rows-perm nodes =
    rw (row_stats (sort_entries (entries_of nodes)), live_entries nodes)
      (Perm.filter_map live_stat (sort_entries_lem (entries_of nodes)).0)

request_path-slash :
    (x : Text) (q : List Text)
    → All IsName (x ∷ q)
    → request_path (codes "/fs/" ++ (join (x ∷ q) slash ++ slash)) ≡ join (x ∷ q) slash
unfolding request_path
request_path-slash x q h =
    ap (λ t. trim_prefix (trim_suffix t slash) slash)
      (trim_prefix-append (codes "/fs/") (join (x ∷ q) slash ++ slash))
    ∙ ap (λ t. trim_prefix t slash) (trim_suffix-slash (join (x ∷ q) slash))
    ∙ trim_prefix-BeginsPlain (join (x ∷ q) slash) (join-BeginsPlain x q h)

-- Both servers list the directory, from stats that are the same up to their order.
abbrev pub BothList :
    (Text → Option Text) → (RemoteRequest → HttpAnswer) → Cluster → Text → ChildNodes → Type 0
BothList disk get c path nodes =
    (shown : List Row) × (fs disk get c (plain_request (path ++ slash))
      ≡ returns (listing path true shown))
    × (list_dir collect c.dfs_root (b'/' ∷ path) [] ≡ returns (done (live nodes, none)))
    × Perm (map (λ r. r.stat) shown) (live nodes)

listed-dir :
    (s : FileStat) (nodes : ChildNodes) (o : Option TreeNode)
    → o ≡ some (tree_node s nodes)
    → s.dir ≡ true
    → listed o ≡ done (live nodes, none)
listed-dir s nodes o e d = ap listed e ∙ ground (arith, d)

serve_dir :
    (disk : Text → Option Text) (get : RemoteRequest → HttpAnswer) (c : Cluster) (url path : Text)
    (s : FileStat) (nodes : ChildNodes)
    → s.dir ≡ true
    → path ≢ []
    → serve_entry disk get c
        (plain_request (url ++ slash))
        path
        (record { stat = s; children = nodes })
      ≡ listing path true (rows (sort_entries (entries_of nodes)))
unfolding serve_entry
serve_dir disk get c url path s nodes d ne =
    rw (d, ==_ne path [] ne, has_suffix-slash (codes "/fs/" ++ url)) refl

-- Under the names of a directory, a slash after them over HTTP, both servers list it: the callback of
-- `ListDir` is called on the stats of its children that are not deleted, and the rows of the page show
-- the same stats, possibly in another order.
pub both_list :
    (disk : Text → Option Text) (get : RemoteRequest → HttpAnswer) (c : Cluster) (x : Text)
    (q : List Text) (s : FileStat) (nodes : ChildNodes)
    → All IsName (x ∷ q)
    → node_at c.dfs_root (x ∷ q) ≡ some (tree_node s nodes)
    → s.dir ≡ true
    → BothList disk get c (join (x ∷ q) slash) nodes
both_list disk get c x q s nodes h found d =
    let path = join (x ∷ q) slash in
    let (b, t, e, ne) = join-BeginsPlain x q h in
    (
      rows (sort_entries (entries_of nodes)),
      fs-seek disk get c (path ++ slash) path (some (tree_node s nodes)) (request_path-slash x q h)
            (seek-join c.dfs_root x q h ∙ ap returns found)
          ∙ ap returns (serve_dir disk get c path path s nodes d (λ p. cc)),
      list_dir-names c.dfs_root x q h
          ∙ ap returns (listed-dir s nodes (node_at c.dfs_root (x ∷ q)) found d),
      rows-perm nodes,
    )
