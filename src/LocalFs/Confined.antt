-- ===== src/LocalFs/Confined.antt =====
-- What a node can open on its disk: names below the local root, if the path has no `..`.
use mathlib.Core.List.{reverse}
use dftp.Base.{
  Bool, true, not, ◌||◌, List, [], ◌∷◌, ◌++◌, Text, ◌==◌, text_eq, byte_eq, if◌then◌else◌, keep,
  All, ◌≡◌, ◌≢◌, refl, ap, ◌∙◌, sym, arith, ==_refl, ==_ne,
}
use dftp.Strings.{has_prefix, trim_prefix, split, join, slash}
use dftp.Strings.Laws.{Lacks, split-All}
use dftp.FilePath.{dot, dot_dot, up, clean_step, clean_loop, join_path}
use dftp.FilePath.Elements.{IsElement, kept, join_path_rooted}
use dftp.LocalFs.{LocalFs, local_file_not_found, opens, local_open_read}
use dftp.LocalFs.RoundTrip.{root_of}

-- The elements that name something: those that are not empty and not `.`.
abbrev pub names_something : Text → Bool
names_something elem = not (elem == [] || elem == dot)

abbrev pub named_elements : Text → List Text
named_elements path = keep names_something (split path b'/')

-- No element of the path is `..`.
abbrev pub NeverUp : Text → Type 0
NeverUp path = All (λ elem. elem ≢ dot_dot) (split path b'/')

module _ (rooted : Bool) where
  clean_loop-keep :
      (out elems : List Text)
      → clean_loop rooted out elems ≡ clean_loop rooted out (keep names_something elems)
  unfolding clean_loop
  clean_loop-keep out [] = refl
  clean_loop-keep out (elem ∷ elems) = elim (text_eq.dec elem []) [
    | yes e ↦ rw (e, ==_refl {A = Text} []) (clean_loop-keep out elems)
    | no ne ↦ elim (text_eq.dec elem dot) [
      | yes e ↦ rw (e, ==_refl dot, ==_ne dot [] (λ p. cc)) (clean_loop-keep out elems)
      | no ne' ↦
          let step : clean_step rooted out elem
              ≡ (if elem == dot_dot then up rooted out else elem ∷ out) =
            rw (==_ne elem [] ne, ==_ne elem dot ne') refl in
          rw (==_ne elem [] ne, ==_ne elem dot ne')
            (ap (λ o. clean_loop rooted o elems) (sym step)
              ∙ clean_loop-keep (clean_step rooted out elem) elems)
    ]
  ]

keep-IsElement :
    (elems : List Text)
    → All (λ elem. elem ≢ dot_dot) elems
    → All (Lacks b'/') elems
    → All IsElement (keep names_something elems)
keep-IsElement [] no_up plain = tt
keep-IsElement (elem ∷ elems) no_up plain = elim (text_eq.dec elem []) [
  | yes e ↦ rw (e, ==_refl {A = Text} []) (keep-IsElement elems no_up.1 plain.1)
  | no ne ↦ elim (text_eq.dec elem dot) [
    | yes e ↦ rw (e, ==_refl dot, ==_ne dot [] (λ p. cc)) (keep-IsElement elems no_up.1 plain.1)
    | no ne' ↦
        rw (==_ne elem [] ne, ==_ne elem dot ne')
          (((ne, plain.0), ne', no_up.0), keep-IsElement elems no_up.1 plain.1)
  ]
]

pub named_elements-IsElement : (t : Text) → NeverUp t → All IsElement (named_elements t)
named_elements-IsElement t no_up = keep-IsElement (split t b'/') no_up (split-All t b'/')

-- A name below a directory, with the names that lead to it from there.
abbrev pub Below : Text → List Text → Text → Type 0
Below r rs name = (ns : List Text) × All IsElement ns × (name ≡ b'/' ∷ join (r ∷ rs ++ ns) slash)

join_path-Below :
    (r : Text) (rs : List Text) (t : Text)
    → All IsElement (r ∷ rs)
    → NeverUp t
    → join_path (root_of r rs) t ≡ b'/' ∷ join (r ∷ rs ++ named_elements t) slash
join_path-Below r rs t hr no_up = join_path_rooted r rs t (r ∷ rs ++ named_elements t) hr (
    ap reverse (clean_loop-keep true (clean_loop true [] (r ∷ rs)) (split t b'/'))
    ∙ kept true (r ∷ rs) (named_elements t) hr (named_elements-IsElement t no_up))

-- With no mount point, every path begins with it and is trimmed to itself.
mounted_or_not :
    (m path root : Text)
    → (if not (m == [])
        then (if not (has_prefix path m)
            then local_file_not_found
            else opens (join_path root (trim_prefix path m)))
        else opens (join_path root path))
      ≡ (if has_prefix path m
          then opens (join_path root (trim_prefix path m))
          else local_file_not_found)
unfolding has_prefix trim_prefix text_eq
mounted_or_not [] path root = refl
mounted_or_not (c ∷ m) path root = ground arith

-- A path without `..` after the mount point opens nothing, or the file that its named elements lead to
-- from the local root.
pub local_open_read-Below :
    (fs : LocalFs) (r : Text) (rs : List Text) (path : Text)
    → All IsElement (r ∷ rs)
    → fs.local_root ≡ root_of r rs
    → NeverUp (trim_prefix path fs.dfs_mount_point)
    → local_open_read fs path ≡ (
        if has_prefix path fs.dfs_mount_point
        then opens
            (b'/' ∷ join (r ∷ rs ++ named_elements (trim_prefix path fs.dfs_mount_point)) slash)
        else local_file_not_found)
unfolding local_open_read
local_open_read-Below fs r rs path hr er no_up =
    mounted_or_not fs.dfs_mount_point path fs.local_root
    ∙ ap (λ name. if has_prefix path fs.dfs_mount_point then opens name else local_file_not_found)
        (rw er (join_path-Below r rs (trim_prefix path fs.dfs_mount_point) hr no_up))
