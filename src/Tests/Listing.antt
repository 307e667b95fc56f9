-- ===== src/Tests/Listing.antt =====
-- The listing of a tree, and the trees of programs.
use dftp.Base.{true, map, Text, codes, byte_eq, text_eq, path_eq, ◌≡◌, refl, List}
use dftp.Strings.{join, slash}
use dftp.FilePath.{join_path}
use dftp.Fat.{zero_stat, TreeNode, tree_node, no_children, child, lookup_child}
use dftp.Fat.Trees.{IsTree}
use dftp.Fat.Listed.{ListsOnce}
use dftp.HttpFace.{find_lines, find}
use dftp.HttpFace.Find.{HasElements, find_lem}
use dftp.Tests.Disk.{element}

abbrev leaf : TreeNode
leaf = tree_node zero_stat no_children

abbrev two_files : TreeNode
two_files =
    tree_node (record zero_stat { dir = true })
      (child (codes "d")
        (tree_node (record zero_stat { dir = true }) (child (codes "a") leaf no_children))
        (child (codes "b") leaf no_children))

find_test : find two_files ≡ codes "/d\r\n/d/a\r\n/b\r\n"
unfolding find join_path text_eq byte_eq
find_test = refl

find_lem_example :
    (ps : List (List Text)) × (find two_files ≡ find_lines (map (λ p. join p slash) ps))
    × ListsOnce two_files ps
unfolding IsTree HasElements lookup_child text_eq
find_lem_example =
    find_lem two_files (refl, (refl, tt, tt), (refl, tt, tt))
      (
        element b'd' (λ e. cc) (λ e. cc),
        (element b'a' (λ e. cc) (λ e. cc), tt, tt),
        (element b'b' (λ e. cc) (λ e. cc), tt, tt),
      )
