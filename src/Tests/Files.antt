-- ===== src/Tests/Files.antt =====
-- The tree of files: runs and witnesses.
use mathlib.Core.List.Perm
use mathlib.Core.Option
use dftp.Base.{
  ℕ, pos, true, false, List, [], ◌∷◌, Option, none, some, Text, codes, text_eq, path_eq, byte_eq,
  ◌≡◌, refl, arith, inl, Outcome, returns,
}
use dftp.Strings.{split, trim_prefix}
use dftp.Fat.{zero_stat, TreeNode, new_root_node, seek, lookup_child, insert_child}
use dftp.Fat.Paths.{node_at, stat_at, names_of, seek-eq-node_at}
use dftp.Update.{FileAnnouncement, update, ensure_init}
use dftp.Update.Stats.{IsFresh, Updates, update_correct}
use dftp.Update.Runs.{
  Converges, KeepsNewest, DeletionMisses, converge, update-IsNewest, deletion_misses,
}

abbrev announce : Text → Text → Text → ℕ → FileAnnouncement
announce path name owner t = record {
  full_name = path;
  stat = record zero_stat {
    basename = name;
    last_info_updated = pos t;
    size_in_bytes = pos 123;
    owner_node = owner;
  };
  full_name_parts = none;
  deletion = false;
}

abbrev a_txt : FileAnnouncement
a_txt = announce (codes "somedir/a.txt") (codes "a.txt") (codes "server1") 10

abbrev c_jpg : FileAnnouncement
c_jpg = announce (codes "somedir/c.jpg") (codes "c.jpg") (codes "server2") 20

abbrev a_txt_2 : FileAnnouncement
a_txt_2 = announce (codes "somedir/a.txt") (codes "a.txt") (codes "server2") 20

abbrev somedir : List Text
somedir = codes "somedir" ∷ []

abbrev a_path : List Text
a_path = codes "somedir" ∷ codes "a.txt" ∷ []

owner_at : Outcome TreeNode → List Text → Option Text
owner_at r path = elim r [ returns n ↦ Option.map (λ s. s.owner_node) (stat_at n path) | _ ↦ none ]

owners_test :
    (owner_at (update new_root_node (a_txt ∷ c_jpg ∷ [])) somedir ≡ some (codes "(multiple)"))
    × (owner_at (update new_root_node (a_txt ∷ c_jpg ∷ [])) a_path ≡ some (codes "server1"))
unfolding owner_at update node_at lookup_child insert_child split trim_prefix text_eq byte_eq
owners_test = (refl, refl)

not_empty : (fa : FileAnnouncement) → fa.full_name_parts ≡ none → IsFresh fa
not_empty fa e e' = cc

-- The tree once the first announcement is in.
abbrev tree_of : Outcome TreeNode → TreeNode
tree_of (returns n) = n
tree_of _ = new_root_node

one_file : TreeNode
unfolding update split trim_prefix lookup_child insert_child text_eq byte_eq
one_file = tree_of (update new_root_node (a_txt ∷ []))

seek-eq-node_at_example :
    seek one_file (codes "/somedir/") ≡ returns (node_at one_file (names_of (codes "/somedir/")))
seek-eq-node_at_example = seek-eq-node_at one_file (codes "/somedir/")

update_correct_example : Updates new_root_node (a_txt ∷ c_jpg ∷ [])
update_correct_example =
    update_correct new_root_node (a_txt ∷ c_jpg ∷ [])
      (not_empty a_txt refl, (not_empty c_jpg refl, tt))

update-IsNewest_example :
    KeepsNewest one_file (a_txt_2 ∷ []) (codes "somedir") (codes "a.txt" ∷ []) a_txt.stat
unfolding ensure_init one_file split trim_prefix byte_eq node_at update lookup_child insert_child
    text_eq
update-IsNewest_example =
    update-IsNewest one_file (a_txt_2 ∷ []) (codes "somedir") (codes "a.txt" ∷ [])
      (not_empty a_txt_2 refl, tt) (refl, tt) (λ n r e. cc, tt) refl

converge_example :
    Converges one_file one_file
      ((a_txt ∷ []) ∷ (a_txt_2 ∷ []) ∷ [])
      ((a_txt_2 ∷ a_txt ∷ []) ∷ [])
      (codes "somedir")
      (codes "a.txt" ∷ [])
unfolding ensure_init split trim_prefix byte_eq
converge_example =
    converge one_file one_file ((a_txt ∷ []) ∷ (a_txt_2 ∷ []) ∷ []) ((a_txt_2 ∷ a_txt ∷ []) ∷ [])
      (codes "somedir") (codes "a.txt" ∷ []) refl
      ((not_empty a_txt refl, tt), ((not_empty a_txt_2 refl, tt), tt))
      ((not_empty a_txt_2 refl, (not_empty a_txt refl, tt)), tt) (λ n r e. cc, (λ n r e. cc, tt))
      (λ n r e. cc, (λ n r e. cc, tt)) ((λ p q. (refl, refl, inl (omega arith)), tt), (tt, tt))
      (Perm.swap (ensure_init a_txt_2) (ensure_init a_txt) [])

abbrev deletion_of_a : FileAnnouncement
deletion_of_a = record (announce (codes "somedir/a.txt") (codes "a.txt") (codes "server1") 30) {
  deletion = true;
}

deletion_misses_example : DeletionMisses one_file deletion_of_a (codes "somedir") (codes "a.txt") []
unfolding ensure_init one_file split trim_prefix byte_eq node_at update lookup_child insert_child
    text_eq
deletion_misses_example =
    deletion_misses one_file deletion_of_a (codes "somedir") (codes "a.txt") [] refl refl
      (not_empty deletion_of_a refl) refl (omega arith)
