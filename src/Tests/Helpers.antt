-- ===== src/Tests/Helpers.antt =====
-- Sorting, traces, listen addresses and confinement: runs and witnesses.
use dftp.Base.{
  ℤ, Bool, true, ltb_ℤ, ℕ, zero, suc, ◌<◌, pos, true, false, List, [], ◌∷◌, Option, some, none,
  Text, codes, ◌==◌, text_eq, byte_eq, if◌then◌else◌, returns, ◌≡◌, ◌≢◌, refl, sym, ap, arith, ◌↔◌,
  ==_ne, ◌∙◌,
}
use dftp.Strings.{join, slash, trim_prefix, trim_suffix, has_suffix, has_prefix, split}
use dftp.Utils.Sort.{swap, less, unchanged, swapped, SortSlice}
use dftp.Ftp.Server.{serve_ftp, listens}
use dftp.Ftp.Address.{IsListenAddress, serve_ftp_lem}
use dftp.Ftp.{get_file, normalize_path}
use dftp.HttpFace.{request_path, Request, fs, sort_entries, text_lt}
use dftp.HttpFace.Listings.{by_sortname, sortnames, SortSlice-sort_entries}
use dftp.HttpFace.Confined.{SameBelow, confined}
use dftp.LocalFs.{opens, local_open_read}
use dftp.LocalFs.Confined.{NeverUp, Below}
use dftp.Cluster.{Cluster}
use dftp.Tests.Peers.{node1}
use dftp.Tests.Disk.{a_dir, element}
use dftp.Tests.Servers.{entry_a, entry_b, empty_disk, deaf}

in_order : (i : ℕ) → suc i < 2 → less by_sortname (entry_a ∷ entry_b ∷ []) (suc i) i ≡ returns false
unfolding less text_lt byte_eq
in_order zero h = refl
in_order (suc i) h = absurd (omega arith)

sorts : SortSlice by_sortname (entry_b ∷ entry_a ∷ []) (entry_a ∷ entry_b ∷ [])
unfolding swap text_lt byte_eq
sorts = (swapped unchanged 0 1 refl, λ i h. in_order i h)

SortSlice-sort_entries_example :
    sortnames (entry_a ∷ entry_b ∷ []) ≡ sortnames (sort_entries (entry_b ∷ entry_a ∷ []))
SortSlice-sort_entries_example =
    SortSlice-sort_entries (entry_b ∷ entry_a ∷ []) (entry_a ∷ entry_b ∷ []) sorts

abbrev high_ports : ℤ → Bool
high_ports port = ltb_ℤ (pos 1023) port

serve_ftp_lem_example :
    (serve_ftp high_ports (codes ":2121") ≡ listens (pos 2121))
    ↔ (IsListenAddress (codes ":2121") (pos 2121) × (high_ports (pos 2121) ≡ true))
serve_ftp_lem_example = serve_ftp_lem high_ports (codes ":2121") (pos 2121)

plain_path : NeverUp (codes "/a")
unfolding split byte_eq
plain_path = (λ e. cc, (λ e. cc, tt))

-- A disk with one file, which is not below /d.
abbrev other_disk : Text → Option Text
other_disk name = if name == codes "/e" then some (codes "secret") else none

abbrev in_d : Cluster
in_d = record node1 { local_fs = a_dir }

d_ne : (ns : List Text) → b'/' ∷ join (codes "d" ∷ ns) slash ≢ codes "/e"
unfolding join has_prefix byte_eq
d_ne [] e = let f : true ≡ false = ap (λ t. has_prefix t (codes "/d")) e in cc
d_ne (n ∷ ns) e = let f : true ≡ false = ap (λ t. has_prefix t (codes "/d")) e in cc

not_e : (name : Text) → Below (codes "d") [] name → name ≢ codes "/e"
not_e name (ns, h, e) x = d_ne ns (sym e ∙ x)

same_disks : SameBelow (codes "d") [] empty_disk other_disk
same_disks name below = rw (==_ne name (codes "/e") (not_e name below)) refl

abbrev get_a : Request
get_a = record { url_path = codes "/fs/m/a"; form_redir_n = [] }

confined_example :
    (fs empty_disk deaf in_d get_a ≡ fs other_disk deaf in_d get_a)
    × (get_file empty_disk deaf in_d (codes "/m/a") (pos 0)
        ≡ get_file other_disk deaf in_d (codes "/m/a") (pos 0))
unfolding join request_path normalize_path trim_prefix trim_suffix has_prefix has_suffix byte_eq
    text_eq
confined_example =
    confined empty_disk other_disk deaf in_d (codes "d") [] (element b'd' (λ e. cc) (λ e. cc), tt)
      refl same_disks get_a (codes "/m/a") (pos 0) plain_path plain_path

-- What comes after the mount point's text leads out of the local root, if it begins with `..`.
escape_test :
    (local_open_read a_dir (codes "m../x") ≡ opens (codes "/x"))
    × (local_open_read a_dir (codes "m/../../x") ≡ opens (codes "/x"))
unfolding local_open_read byte_eq text_eq
escape_test = (refl, refl)
