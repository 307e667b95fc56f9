-- ===== src/LocalFs/RoundTrip.antt =====
-- The name under which a scan announces a file, and the file that this name opens.
use mathlib.Core.List.{reverse}
use dftp.Base.{
  ℤ, Bool, true, false, not, List, [], ◌∷◌, ◌++◌, append_assoc, Text, ◌==◌, text_eq, byte_eq,
  if◌then◌else◌, All, All-append, ◌≡◌, ◌≢◌, refl, ap, ◌∙◌, sym, ==_refl, ==_ne,
}
use dftp.Strings.{has_prefix, trim_prefix, join, slash}
use dftp.Strings.Laws.{has_prefix-append, trim_prefix-append, split-join, split-append}
use dftp.FilePath.{clean_loop, join_path, clean}
use dftp.FilePath.Elements.{
  IsElement, elements-Lacks, kept, join-append, clean_loop-nil, clean-join, join_ne, join_path-join,
  join_path_rooted,
}
use dftp.Update.{FileAnnouncement}
use dftp.LocalFs.{LocalFs, Visit, announced, scan_visit, opens, local_open_read}

-- The local root as `NewLocalFs` leaves it.
abbrev pub root_of : Text → List Text → Text
root_of r rs = b'/' ∷ (join (r ∷ rs) slash ++ slash)

module _ (r : Text) (rs : List Text) (x : Text) (q : List Text) (hr : All IsElement (r ∷ rs))
    (hx : All IsElement (x ∷ q)) where
  below_root : b'/' ∷ join (r ∷ rs ++ x ∷ q) slash ≡ root_of r rs ++ join (x ∷ q) slash
  below_root =
      ap (λ t. b'/' ∷ t)
        (join-append r rs x q ∙ sym (append_assoc (join (r ∷ rs) slash) slash (join (x ∷ q) slash)))

  open_plain : join_path (root_of r rs) (join (x ∷ q) slash) ≡ b'/' ∷ join (r ∷ rs ++ x ∷ q) slash
  open_plain = join_path_rooted r rs (join (x ∷ q) slash) (r ∷ rs ++ x ∷ q) hr (
      ap (λ z. reverse (clean_loop true (clean_loop true [] (r ∷ rs)) z))
        (split-join x q b'/' (elements-Lacks (x ∷ q) hx))
      ∙ kept true (r ∷ rs) (x ∷ q) hr hx)

  open_mounted :
      join_path (root_of r rs) (slash ++ join (x ∷ q) slash) ≡ b'/' ∷ join (r ∷ rs ++ x ∷ q) slash
  open_mounted = join_path_rooted r rs (slash ++ join (x ∷ q) slash) (r ∷ rs ++ x ∷ q) hr (
      ap (λ z. reverse (clean_loop true (clean_loop true [] (r ∷ rs)) z))
        (split-append [] (join (x ∷ q) slash) b'/' tt
          ∙ ap (λ z. [] ∷ z) (split-join x q b'/' (elements-Lacks (x ∷ q) hx)))
      ∙ ap reverse (clean_loop-nil true (clean_loop true [] (r ∷ rs)) (x ∷ q))
      ∙ kept true (r ∷ rs) (x ∷ q) hr hx)

-- The name of a file below the mount point.
abbrev pub dfs_name : List Text → Text → List Text → Text
dfs_name ms x q = join (ms ++ x ∷ q) slash

join_path-nil : (t : Text) → t ≢ [] → join_path [] t ≡ clean t
unfolding join_path text_eq
join_path-nil t h = rw (==_ne t [] h) refl

mounted_name :
    (ms : List Text) (x : Text) (q : List Text)
    → All IsElement ms
    → All IsElement (x ∷ q)
    → join_path (join ms slash) (join (x ∷ q) slash) ≡ dfs_name ms x q
unfolding join
mounted_name [] x q hm h = join_path-nil (join (x ∷ q) slash) (join_ne x q h) ∙ clean-join x q h
mounted_name (m ∷ ms) x q hm h = join_path-join m ms x q hm h

passes :
    {A : Type 0} (b c : Bool) (x y z : A)
    → b ≡ false
    → c ≡ true
    → (if not b then (if not c then x else y) else z) ≡ y
passes b c x y z e f = rw (e, f) refl

fails : {A : Type 0} (b : Bool) (x y : A) → b ≡ true → (if not b then x else y) ≡ y
fails b x y e = rw e refl

-- Below a mount point, a path that begins with its text opens what comes after that text, whether
-- a slash comes next or not.
pub local_open_read-mount :
    (fs : LocalFs) (rest : Text)
    → fs.dfs_mount_point ≢ []
    → local_open_read fs (fs.dfs_mount_point ++ rest) ≡ opens (join_path fs.local_root rest)
unfolding local_open_read
local_open_read-mount fs rest h =
    passes (fs.dfs_mount_point == []) (has_prefix (fs.dfs_mount_point ++ rest) fs.dfs_mount_point) _
      _ _ (==_ne fs.dfs_mount_point [] h) (has_prefix-append fs.dfs_mount_point rest)
    ∙ ap (λ t. opens (join_path fs.local_root t)) (trim_prefix-append fs.dfs_mount_point rest)

local_open_read-plain :
    (fs : LocalFs) (t : Text)
    → fs.dfs_mount_point ≡ []
    → local_open_read fs t ≡ opens (join_path fs.local_root t)
unfolding local_open_read
local_open_read-plain fs t e =
    fails (fs.dfs_mount_point == []) _ _ (ap (λ m. m == []) e ∙ ==_refl {A = Text} [])

module _ (s : LocalFs) (r : Text) (rs : List Text) (x : Text) (q : List Text)
    (hr : All IsElement (r ∷ rs)) (h : All IsElement (x ∷ q))
    (er : s.local_root ≡ root_of r rs) where
  opens_again :
      (ms : List Text)
      → All IsElement ms
      → s.dfs_mount_point ≡ join ms slash
      → local_open_read s (dfs_name ms x q) ≡ opens (b'/' ∷ join (r ∷ rs ++ x ∷ q) slash)
  unfolding join
  opens_again [] hm em =
      local_open_read-plain s (join (x ∷ q) slash) em
      ∙ ap opens (ap (λ z. join_path z (join (x ∷ q) slash)) er ∙ open_plain r rs x q hr h)
  opens_again (m ∷ ms) hm em =
      ap (local_open_read s)
        (join-append m ms x q ∙ ap (λ z. z ++ (slash ++ join (x ∷ q) slash)) (sym em))
      ∙ local_open_read-mount s (slash ++ join (x ∷ q) slash) (λ e. join_ne m ms hm (sym em ∙ e))
      ∙ ap opens
          (ap (λ z. join_path z (slash ++ join (x ∷ q) slash)) er ∙ open_mounted r rs x q hr h)

kept_visit :
    {A : Type 0} (b c : Bool) (x y : A)
    → b ≡ false
    → c ≡ false
    → (if b then x else if not c then y else x) ≡ y
kept_visit b c x y e f = rw (e, f) refl

dfs_name_ne :
    (ms : List Text) (x : Text) (q : List Text)
    → All IsElement ms
    → All IsElement (x ∷ q)
    → dfs_name ms x q ≢ []
dfs_name_ne [] x q hm h = join_ne x q h
dfs_name_ne (m ∷ ms) x q hm h = join_ne m (ms ++ x ∷ q) (All-append IsElement (m ∷ ms) (x ∷ q) hm h)

-- The scan adds one announcement, under that name, and the name opens the visited file.
abbrev pub Reopens : LocalFs → ℤ → List FileAnnouncement → Visit → Text → Type 0
Reopens s scan_t files v name =
    (scan_visit s scan_t files v ≡ files ++ announced s scan_t v ∷ [])
    × ((announced s scan_t v).full_name ≡ name)
    × (local_open_read s name ≡ opens v.path)

-- A file below the local root is announced below the mount point, by the names of its path, and that
-- name opens the file again, if no name on the way is empty, `.` or `..`, or holds a slash.
pub scan_visit-opens :
    (s : LocalFs) (scan_t : ℤ) (files : List FileAnnouncement) (v : Visit) (r : Text)
    (rs ms : List Text) (x : Text) (q : List Text)
    → All IsElement (r ∷ rs)
    → All IsElement ms
    → All IsElement (x ∷ q)
    → s.local_root ≡ root_of r rs
    → s.dfs_mount_point ≡ join ms slash
    → v.failed ≡ false
    → v.path ≡ b'/' ∷ join (r ∷ rs ++ x ∷ q) slash
    → Reopens s scan_t files v (dfs_name ms x q)
unfolding scan_visit
scan_visit-opens s scan_t files v r rs ms x q hr hm h er em ok p =
    let named : join_path s.dfs_mount_point (trim_prefix v.path s.local_root) ≡ dfs_name ms x q =
      ap (λ z. join_path z (trim_prefix v.path s.local_root)) em
      ∙ ap (join_path (join ms slash)) (
          ap (λ z. trim_prefix z s.local_root) (p ∙ below_root r rs x q hr h)
          ∙ ap (trim_prefix (root_of r rs ++ join (x ∷ q) slash)) er
          ∙ trim_prefix-append (root_of r rs) (join (x ∷ q) slash))
      ∙ mounted_name ms x q hm h in
    let not_empty = ==_ne (dfs_name ms x q) [] (dfs_name_ne ms x q hm h) in
    (
      kept_visit v.failed ((announced s scan_t v).full_name == []) _ _ ok
          (ap (λ z. z == []) named ∙ not_empty),
      named,
      opens_again s r rs x q hr h er ms hm em ∙ ap opens (sym p),
    )
