-- ===== src/Tests/Systems.antt =====
-- Two programs as a system.
use dftp.Base.{
  pos, true, List, [], ◌∷◌, some, Text, ℤ, codes, text_eq, byte_eq, ◌==◌, ◌≡◌, ◌≢◌, refl, inl, inr,
  arith, Any-witness, Among, among-All, All, ap, false,
}
use dftp.Base.Perms.{AllPairs}
use dftp.Strings.{split, has_prefix, has_suffix, trim_prefix}
use dftp.FilePath.{join_path}
use dftp.LocalFs.{scan_loop, new_local_fs}
use dftp.Update.{ensure_init, parts}
use dftp.FilePath.Elements.{IsElement}
use dftp.HttpFace.Same.{SameLines}
use dftp.System.Listing.{same_listing}
use dftp.Update.Target.{StopsAt}
use dftp.Update.Runs.{all_ready}
use dftp.Update.Sets.{Compatible}
use dftp.Cluster.{UpdateData, new_cluster}
use dftp.Exchange.{greeting}
use dftp.System.{Carried, Started, Member, greets, System, new_system, Run, begin}
use dftp.System.Members.{KeepsToSystem, members_keep}
use dftp.System.Settled.{scans, HasHeardAll, Settled, settled}
use dftp.System.Spread.{Runs, Run-Stands}
use dftp.System.Greet.{HasPorts, OtherName}
use dftp.System.Live.{CanSettle, can_settle}
use dftp.Tests.Disk.{notes, options}
use dftp.Tests.Programs.{starts, a_program}

abbrev started : Text → ℤ → Started
started name t = record {
  hostname = some name;
  options = options;
  scan_t = t;
  visits = notes ∷ [];
  now = pos 20;
  start = a_program name t;
  started = (starts name t).1;
}

abbrev two_programs : List Started
two_programs = started (codes "h1") (pos 9) ∷ started (codes "h2") (pos 12) ∷ []

abbrev x : Text
x = codes "docs"

abbrev q : List Text
q = codes "notes.txt" ∷ []

-- The first program has sent a greeting, which has not arrived.
abbrev greeted : System
greeted = record (new_system two_programs) {
  sent = greets (greeting (a_program (codes "h1") (pos 9)).cluster true) ∷ [];
}

abbrev same_update : UpdateData → UpdateData
same_update upd = upd

carried : Carried same_update two_programs
carried = (refl, (refl, tt))

plain_ports : (name : Text) (t : ℤ) → name ≢ [] → HasPorts (a_program name t).cluster.me
unfolding new_cluster new_local_fs text_eq
plain_ports name t ne = record {
  port = codes "7040";
  mgmt_port = codes "7041";
  port_plain = (λ e. cc, (λ e. cc, (λ e. cc, (λ e. cc, tt))));
  mgmt_plain = (λ e. cc, (λ e. cc, (λ e. cc, (λ e. cc, tt))));
  public = refl;
  mgmt = refl;
  named = ne;
}

stops : All (StopsAt (x ∷ q)) (all_ready (scans two_programs))
unfolding ensure_init scan_loop has_prefix has_suffix trim_prefix join_path new_cluster new_local_fs
    split text_eq byte_eq
stops = (λ n r e. cc, (λ n r e. cc, tt))

compatible :
    All
      (λ a. All (Compatible (x ∷ q) a) (all_ready (scans two_programs)))
      (all_ready (scans two_programs))
unfolding ensure_init scan_loop has_prefix has_suffix trim_prefix join_path new_cluster new_local_fs
    split text_eq byte_eq
compatible = (
  (λ e f. (refl, refl, inl refl), (λ e f. (refl, refl, inr (inl (omega arith))), tt)),
  ((λ e f. (refl, refl, inr (inr (omega arith))), (λ e f. (refl, refl, inl refl), tt)), tt),
)

other_names : AllPairs OtherName two_programs
unfolding new_cluster new_local_fs text_eq
other_names = ((λ e. let d : false ≡ true = ap (λ t. codes "h2" == t) e in cc, tt), (tt, tt))

ports : All (λ p. HasPorts p.start.cluster.me) two_programs
ports =
    (plain_ports (codes "h1") (pos 9) (λ e. cc), (plain_ports (codes "h2") (pos 12) (λ e. cc), tt))

-- A state in which both nodes have heard all, and the events that lead there.
settling : CanSettle same_update two_programs (new_system two_programs) x q
settling = can_settle same_update two_programs x q carried begin other_names ports stops compatible

abbrev after_all : System
after_all = settling.0

reaches_all : Run same_update (new_system two_programs) after_all
reaches_all = settling.1

-- The node that runs the first program, and the one that runs the second.
first_found : (m : Member) × Among after_all.members m × Runs (started (codes "h1") (pos 9)) m
first_found = Any-witness after_all.members (Run-Stands same_update two_programs reaches_all).0

second_found : (m : Member) × Among after_all.members m × Runs (started (codes "h2") (pos 12)) m
second_found = Any-witness after_all.members (Run-Stands same_update two_programs reaches_all).1.0

settled_example : Settled two_programs first_found.0 second_found.0 x q
settled_example =
    settled same_update two_programs {s = after_all} first_found.0 second_found.0 x q carried
      reaches_all first_found.1 second_found.1
      (among-All (HasHeardAll two_programs) after_all.members first_found.1 settling.2)
      (among-All (HasHeardAll two_programs) after_all.members second_found.1 settling.2) stops
      compatible

members_keep_example : All (KeepsToSystem two_programs) after_all.members
members_keep_example = members_keep same_update two_programs carried reaches_all

docs_element : IsElement (codes "docs")
docs_element = ((λ e. cc, (λ e. cc, (λ e. cc, (λ e. cc, (λ e. cc, tt))))), λ e. cc, λ e. cc)

notes_element : IsElement (codes "notes.txt")
notes_element = (
  (
    λ e. cc,
    (
      λ e. cc,
      (λ e. cc, (λ e. cc, (λ e. cc, (λ e. cc, (λ e. cc, (λ e. cc, (λ e. cc, (λ e. cc, tt)))))))),
    ),
  ),
  λ e. cc,
  λ e. cc,
)

plain_names : All (λ fa. All IsElement (parts fa)) (all_ready (scans two_programs))
unfolding ensure_init scan_loop has_prefix has_suffix trim_prefix join_path new_cluster new_local_fs
    split text_eq byte_eq
plain_names = ((docs_element, (notes_element, tt)), ((docs_element, (notes_element, tt)), tt))

same_listing_example : SameLines first_found.0.cluster.dfs_root second_found.0.cluster.dfs_root
same_listing_example =
    same_listing same_update two_programs {s = after_all} first_found.0 second_found.0 carried
      reaches_all first_found.1 second_found.1
      (among-All (HasHeardAll two_programs) after_all.members first_found.1 settling.2)
      (among-All (HasHeardAll two_programs) after_all.members second_found.1 settling.2) plain_names
