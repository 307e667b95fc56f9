-- ===== src/Tests/Serving.antt =====
-- A file of one program of a system, read at another one.
use dftp.Base.{
  pos, true, false, List, [], ◌∷◌, some, Option, Text, ℤ, codes, text_eq, byte_eq, ◌==◌, ◌≡◌, ◌≢◌,
  refl, Any-witness, Among, All, ap, inl,
}
use dftp.Base.Perms.{AllPairs}
use dftp.Proxy.{RemoteRequest}
use dftp.Strings.{split, has_prefix, has_suffix, trim_prefix}
use dftp.FilePath.{join_path}
use dftp.LocalFs.{scan_loop, new_local_fs, Visit}
use dftp.Update.{ensure_init}
use dftp.Update.Target.{StopsAt}
use dftp.Update.Runs.{all_ready}
use dftp.Update.Sets.{Compatible}
use dftp.Cluster.{UpdateData, new_cluster}
use dftp.Proxy.Redirects.{Server}
use dftp.System.{Carried, Started, Member, new_system, begin}
use dftp.System.Settled.{scans}
use dftp.System.Spread.{Runs, Run-Stands}
use dftp.System.Greet.{HasPorts, OtherName}
use dftp.System.Live.{CanSettle, can_settle}
use dftp.Tests.Disk.{visit_a}
use dftp.Tests.Programs.Reading.{small_options, starts, a_program, a_disk}

abbrev started : Text → ℤ → List Visit → Started
started name t visits = record {
  hostname = some name;
  options = small_options;
  scan_t = t;
  visits = visits;
  now = pos 20;
  start = a_program name t visits;
  started = (starts name t visits).1;
}

abbrev first : Started
first = started (codes "h1") (pos 9) (visit_a ∷ [])

abbrev second : Started
second = started (codes "h2") (pos 12) []

abbrev programs : List Started
programs = first ∷ second ∷ []

plain_ports :
    (name : Text) (t : ℤ) (visits : List Visit)
    → name ≢ []
    → HasPorts (a_program name t visits).cluster.me
unfolding new_cluster new_local_fs text_eq
plain_ports name t visits ne = record {
  port = codes "7040";
  mgmt_port = codes "7041";
  port_plain = (λ e. cc, (λ e. cc, (λ e. cc, (λ e. cc, tt))));
  mgmt_plain = (λ e. cc, (λ e. cc, (λ e. cc, (λ e. cc, tt))));
  public = refl;
  mgmt = refl;
  named = ne;
}

stops : All (StopsAt (codes "m" ∷ codes "a" ∷ [])) (all_ready (scans programs))
unfolding ensure_init scan_loop has_prefix has_suffix trim_prefix join_path new_cluster new_local_fs
    split text_eq byte_eq
stops = (λ n r e. cc, tt)

compatible :
    All
      (λ a. All (Compatible (codes "m" ∷ codes "a" ∷ []) a) (all_ready (scans programs)))
      (all_ready (scans programs))
unfolding ensure_init scan_loop has_prefix has_suffix trim_prefix join_path new_cluster new_local_fs
    split text_eq byte_eq
compatible = ((λ e f. (refl, refl, inl refl), tt), tt)

other_name : codes "h1" ≢ codes "h2"
unfolding text_eq
other_name e = let d : false ≡ true = ap (λ t. codes "h2" == t) e in cc

other_names : AllPairs OtherName programs
unfolding new_cluster new_local_fs
other_names = ((other_name, tt), (tt, tt))

abbrev same_update : UpdateData → UpdateData
same_update upd = upd

carried : Carried same_update programs
carried = (refl, (refl, tt))

abbrev same_request : RemoteRequest → RemoteRequest
same_request r = r

settling : CanSettle same_update programs (new_system programs) (codes "m") (codes "a" ∷ [])
settling =
    can_settle same_update programs (codes "m") (codes "a" ∷ []) carried begin other_names
      (
        plain_ports (codes "h1") (pos 9) (visit_a ∷ []) (λ e. cc),
        (plain_ports (codes "h2") (pos 12) [] (λ e. cc), tt),
      )
      stops compatible

-- The node that runs the first program, and the one that runs the second.
first_found : (m : Member) × Among settling.0.members m × Runs first m
first_found = Any-witness settling.0.members (Run-Stands same_update programs settling.1).0

abbrev lan : Text → Option Server
lan addr = some (record { cluster = first_found.0.cluster; disk = a_disk })
