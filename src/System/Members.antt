-- ===== src/System/Members.antt =====
-- Who the members of a system are to each other: programs of the system, whatever the network does.
use dftp.Base.{
  List, [], ◌∷◌, inl, inr, Text, text_eq, ◌≡◌, Any, Any-map, All, All-map, All-among, All-mapped,
  ap, ◌∙◌, sym,
}
use dftp.Base.Assoc.{Values}
use dftp.Update.{FileAnnouncement}
use dftp.Cluster.{NodeInfo, UpdateData}
use dftp.Exchange.{full_update, all_present}
use dftp.Exchange.Totals.{all_present-map}
use dftp.Node.Heard.{heard}
use dftp.Main.Launches.{returns-injective, main-alone}
use dftp.Main.Nodes.{own_scan}
use dftp.System.{Started, Member, new_member, new_system, System, Run, Carried}
use dftp.System.Known.{BatchKnown, MemberKnown, Run-Known}

-- The name is that of a program of the system.
abbrev pub Belongs : List Started → Text → Type 0
Belongs ps name = Any (λ p. p.start.cluster.me.name ≡ name) ps

-- The update is what a program of the system sends.
abbrev pub OwnUpdate : List Started → UpdateData → Type 0
OwnUpdate ps upd = Any (λ p. upd ≡ full_update p.start.cluster) ps

-- The announcements are those that a program of the system has scanned.
abbrev pub OwnScan : List Started → List FileAnnouncement → Type 0
OwnScan ps files = Any (λ p. files ≡ own_scan p.start.cluster) ps

new_member-Known :
    (ps : List Started) (p : Started)
    → Any (◌≡◌ p) ps
    → MemberKnown (Belongs ps) (OwnUpdate ps) (new_member p)
unfolding heard
new_member-Known ps p a =
    let (peers, tasks) =
      main-alone p.options p.scan_t p.visits p.now p.start p.hostname p.started in
    record {
      own_name = Any-map (λ q e. ap (λ (z : Started). z.start.cluster.me.name) (sym e)) ps a;
      own_update = Any-map (λ q e. ap (λ (z : Started). full_update z.start.cluster) e) ps a;
      knows = record { names = rw peers tt; updates = rw tasks tt };
      batches = tt;
    }

Carried-keeps :
    (json : UpdateData → UpdateData) (ps : List Started)
    → Carried json ps
    → (upd : UpdateData) → OwnUpdate ps upd
    → OwnUpdate ps (json upd)
Carried-keeps json [] h upd a = absurd a
Carried-keeps json (p ∷ ps) h upd (inl e) = inl (ap json e ∙ h.0)
Carried-keeps json (p ∷ ps) h upd (inr a) = inr (Carried-keeps json ps h.1 upd a)

pub Run-members :
    (json : UpdateData → UpdateData) (ps : List Started) {s : System}
    → Carried json ps
    → Run json (new_system ps) s
    → All (MemberKnown (Belongs ps) (OwnUpdate ps)) s.members
Run-members json ps c r =
    (Run-Known (Belongs ps) (OwnUpdate ps) json (Carried-keeps json ps c) r (record {
      members = All-mapped _ new_member ps (All-among ps (new_member-Known ps));
      sent = tt;
    })).members

pub BatchKnown-OwnScan :
    (ps : List Started) (files : List FileAnnouncement)
    → BatchKnown (Belongs ps) (OwnUpdate ps) files
    → OwnScan ps files
BatchKnown-OwnScan ps files (upd, u, e) =
    Any-map
      (λ p same. returns-injective files (own_scan p.start.cluster) (
        sym e
        ∙ ap (λ (z : UpdateData). all_present z.files) same
        ∙ all_present-map (own_scan p.start.cluster)))
      ps u

-- The peers of the member are named as programs of the system, and what it has taken in are scans of
-- programs of the system.
pub record KeepsToSystem (ps : List Started) (m : Member) : Type 0 where
  pub peers : Values (λ (node : NodeInfo). Belongs ps node.name) m.cluster.peers
  pub batches : All (OwnScan ps) (heard m.node.run)

-- Programs that were started, and hear nothing from outside but datagrams, requests to join, and
-- requests that bring no greeting and no update: whatever arrives among them, late, repeated, out of
-- order or never, each peer of each node is named as one of the programs, and each update that a node
-- has taken in is what one of them has scanned, if the updates of the programs are decoded as they
-- were encoded, as those of valid UTF-8 are.
pub members_keep :
    (json : UpdateData → UpdateData) (ps : List Started) {s : System}
    → Carried json ps
    → Run json (new_system ps) s
    → All (KeepsToSystem ps) s.members
members_keep json ps {s} c r =
    All-map
      (λ m k. record {
        peers = k.knows.names;
        batches = All-map (BatchKnown-OwnScan ps) (heard m.node.run) k.batches;
      })
      s.members (Run-members json ps c r)
