-- ===== src/Tests/Programs/Reading.antt =====
-- Programs with one small file, and what is around them.
use dftp.Base.{ℤ, pos, List, [], ◌∷◌, some, Option, Text, codes, text_eq, byte_eq, ◌≢◌}
use dftp.Update.Alone.{IsAlone}
use dftp.LocalFs.{Visit}
use dftp.Proxy.{RemoteRequest, HttpAnswer, unreachable}
use dftp.Main.{Options, Program, program, main}
use dftp.Main.Starts.{first_scan, StartsAs, main-starts}
use dftp.Tests.Disk.{options}

abbrev pub small_options : Options
small_options = record options { dfs_root = codes "/d"; dfs_mount_point = codes "m" }

has_root : small_options.dfs_root ≢ []
has_root e = cc

pub starts :
    (name : Text) (t : ℤ) (visits : List Visit)
    → StartsAs name small_options t visits
        (pos 20)
        (main (some name) small_options t visits (pos 20))
starts name t visits = main-starts name small_options t visits (pos 20) has_root

abbrev pub a_program : Text → ℤ → List Visit → Program
a_program name t visits =
    program small_options (first_scan name small_options t visits, (starts name t visits).0)
      (pos 20)

pub alone : IsAlone (codes "m" ∷ codes "a" ∷ []) [] []
alone = record { none_before = tt; none_after = tt; stop_before = tt; stop_after = tt }

abbrev pub a_disk : Text → Option Text
a_disk name = some (codes "text")

abbrev pub no_other : RemoteRequest → HttpAnswer
no_other r = unreachable
