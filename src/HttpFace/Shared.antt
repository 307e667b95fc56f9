-- ===== src/HttpFace/Shared.antt =====
-- A file of the disk, by the name under which a scan announces it: where it is in a tree, and what opens it.
use mathlib.Core.Option
use dftp.Base.{
  ℤ, pos, ◌<ℤ◌, false, List, [], ◌∷◌, ◌++◌, Option, none, some, Text, text_eq, byte_eq, All,
  All-append, ◌≡◌, refl, ap, ◌∙◌, sym, subst,
}
use dftp.Strings.{join, slash, split, trim_prefix}
use dftp.Strings.Ends.{join-BeginsPlain, trim_prefix-BeginsPlain, split-names}
use dftp.FilePath.Elements.{IsElement, elements-IsName}
use dftp.Fat.{FileStat, TreeNode, tree_node, get_filestat}
use dftp.Update.{parts, ensure_init}
use dftp.Update.Alone.{IsFile}
use dftp.LocalFs.{LocalFs, Visit, announced, opens, local_open_read}
use dftp.LocalFs.RoundTrip.{root_of, dfs_name, Reopens, scan_visit-opens}

pub node_of :
    (o : Option TreeNode) (s : FileStat)
    → Option.map get_filestat o ≡ some s
    → (nodes : _) × (o ≡ some (tree_node s nodes))
node_of none s e = cc
node_of (some (tree_node t nodes)) s e = (nodes, cc)

-- A file that a scan visits below the local root, whose names make up the path `y / p` in the tree.
pub record IsVisit (s : LocalFs) (scan_t : ℤ) (v : Visit) (y : Text) (p : List Text) : Type 0 where
  pub r : Text
  pub rs : List Text
  pub ms : List Text
  pub x : Text
  pub q : List Text
  pub root_elements : All IsElement (r ∷ rs)
  pub mount_elements : All IsElement ms
  pub elements : All IsElement (x ∷ q)
  pub local_root : s.local_root ≡ root_of r rs
  pub mount_point : s.dfs_mount_point ≡ join ms slash
  pub seen : v.failed ≡ false
  pub at : v.path ≡ b'/' ∷ join (r ∷ rs ++ x ∷ q) slash
  pub in_tree : ms ++ x ∷ q ≡ y ∷ p
  pub not_dir : v.is_dir ≡ false
  pub timed : pos 0 <ℤ scan_t

module _ (s : LocalFs) (scan_t : ℤ) (v : Visit) (y : Text) (p : List Text)
    (h : IsVisit s scan_t v y p) where
  pub names : All IsElement (y ∷ p)
  names =
      subst (All IsElement) h.in_tree
        (All-append IsElement h.ms (h.x ∷ h.q) h.mount_elements h.elements)

  reopened : Reopens s scan_t [] v (dfs_name h.ms h.x h.q)
  reopened =
      scan_visit-opens s scan_t [] v h.r h.rs h.ms h.x h.q h.root_elements h.mount_elements
        h.elements h.local_root h.mount_point h.seen h.at

  full_name : (announced s scan_t v).full_name ≡ join (y ∷ p) slash
  full_name = reopened.1 ∙ ap (λ l. join l slash) h.in_tree

  pub opens_it : local_open_read s (join (y ∷ p) slash) ≡ opens v.path
  opens_it = ap (λ l. local_open_read s (join l slash)) (sym h.in_tree) ∙ reopened.2

  parts_of : parts (ensure_init (announced s scan_t v)) ≡ y ∷ p
  unfolding ensure_init
  parts_of =
      ap (λ t. split (trim_prefix t slash) b'/') full_name
      ∙ ap (λ t. split t b'/')
          (trim_prefix-BeginsPlain (join (y ∷ p) slash)
            (join-BeginsPlain y p (elements-IsName (y ∷ p) names)))
      ∙ split-names y p (elements-IsName (y ∷ p) names)

  pub announced-IsFile : IsFile (announced s scan_t v) (y ∷ p)
  announced-IsFile = record {
    for_path = parts_of;
    kept = refl;
    not_dir = h.not_dir;
    timed = h.timed;
  }
