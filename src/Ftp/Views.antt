-- ===== src/Ftp/Views.antt =====
-- What the FTP driver shows of the tree, by the names of a path.
use dftp.Base.{
  append-nil, append_assoc, not, List, [], ◌∷◌, ◌++◌, Option, none, some, Text, text_eq, path_eq,
  byte_eq, if◌then◌else◌, All, Outcome, returns, ◌≡◌, refl, arith,
}
use dftp.Strings.{join, slash}
use dftp.Strings.Ends.{
  IsName, join-EndsPlain, trim_suffix-EndsPlain, trim_suffix-slash, trim_prefix-slash,
  append-EndsPlain,
}
use dftp.Fat.{
  FileStat, is_deleted, TreeNode, tree_node, ChildNodes, no_children, child, child_nodes,
  get_filestat, get_readonly,
}
use dftp.Fat.Paths.{node_at}
use dftp.Fat.Names.{seek-join}
use dftp.Ftp.{
  FtpResult, done, fails, not_found, not_a_directory, normalize_path, stat, list_loop, list_dir,
}

-- The path as a client writes it, with a slash before it, or one at each end.
pub normalize_path-join :
    (x : Text) (q : List Text)
    → All IsName (x ∷ q)
    → (normalize_path (b'/' ∷ join (x ∷ q) slash) ≡ join (x ∷ q) slash)
      × (normalize_path (b'/' ∷ (join (x ∷ q) slash ++ slash)) ≡ join (x ∷ q) slash)
unfolding normalize_path
normalize_path-join x q h = (
  rw
      (trim_suffix-EndsPlain (b'/' ∷ join (x ∷ q) slash)
        (append-EndsPlain slash (join (x ∷ q) slash) (join-EndsPlain x q h)))
      (trim_prefix-slash (join (x ∷ q) slash)),
  rw (trim_suffix-slash (b'/' ∷ join (x ∷ q) slash)) (trim_prefix-slash (join (x ∷ q) slash)),
)

abbrev pub stat_result : Option TreeNode → FtpResult FileStat
stat_result none = fails not_found
stat_result (some e) = done (get_filestat e)

found-stat :
    (o : Option TreeNode)
    → ◌≡◌ {A = Outcome (FtpResult FileStat)}
        (returns (elim o [ none ↦ fails not_found | some e ↦ done (get_readonly e).stat ]))
        (returns (stat_result o))
found-stat none = refl
found-stat (some (tree_node s c)) = refl

-- `Stat` gives the stat of the node that the names of the path lead to.
pub stat-names :
    (root : TreeNode) (x : Text) (q : List Text)
    → All IsName (x ∷ q)
    → stat root (b'/' ∷ join (x ∷ q) slash) ≡ returns (stat_result (node_at root (x ∷ q)))
unfolding stat
stat-names root x q h =
    rw ((normalize_path-join x q h).0, seek-join root x q h) (found-stat (node_at root (x ∷ q)))

-- The children that are not deleted, by their stats.
abbrev pub live : ChildNodes → List FileStat
live no_children = []
live (child name e rest) =
    let others = live rest in
    if is_deleted (get_filestat e) then others else get_filestat e ∷ others

-- A callback that appends what it is called on, and has no error.
abbrev pub collect : List FileStat → FileStat → List FileStat × Option (Unit {0})
collect seen s = (seen ++ s ∷ [], none)

list_loop-collect :
    (nodes : ChildNodes) (seen : List FileStat)
    → list_loop collect nodes seen ≡ (seen ++ live nodes, none)
unfolding list_loop
list_loop-collect no_children seen = rw append-nil refl
list_loop-collect (child name e rest) seen = ground (
  arith,
  list_loop-collect rest seen,
  list_loop-collect rest (seen ++ get_filestat e ∷ []),
  append_assoc seen (get_filestat e ∷ []) (live rest),
)

abbrev pub listed : Option TreeNode → FtpResult (List FileStat × Option (Unit {0}))
listed none = fails not_found
listed (some e) =
    if (get_filestat e).dir then done (live (child_nodes e), none) else fails not_a_directory

found-listed :
    (o : Option TreeNode)
    → ◌≡◌ {A = Outcome (FtpResult (List FileStat × Option (Unit {0})))}
        (returns (elim o [
          | none ↦ fails not_found
          | some e ↦
              if not (get_readonly e).stat.dir
              then fails not_a_directory
              else done (list_loop collect (get_readonly e).children [])
        ]))
        (returns (listed o))
found-listed none = refl
found-listed (some (tree_node s c)) = rw (list_loop-collect c []) (ground arith)

-- `ListDir` calls a callback that has no error on each child of the directory that is not deleted, in
-- the order of the children, and on nothing else. On a file and on no node it is an error.
pub list_dir-names :
    (root : TreeNode) (x : Text) (q : List Text)
    → All IsName (x ∷ q)
    → list_dir collect root (b'/' ∷ join (x ∷ q) slash) [] ≡ returns (listed (node_at root (x ∷ q)))
unfolding list_dir
list_dir-names root x q h =
    rw ((normalize_path-join x q h).0, seek-join root x q h) (found-listed (node_at root (x ∷ q)))
