-- ===== src/System/Live.antt =====
-- What a system of programs can always come to: all nodes with the stats that all scans leave.
use dftp.Base.{
  List, [], ◌∷◌, ◌++◌, none, Text, text_eq, byte_eq, ◌≡◌, ◌≢◌, refl, inl, inr, Any, Any-witness,
  Among, All, All-map, All-both, All-mapped, ap, sym, subst,
}
use dftp.Base.Perms.{AllPairs}
use dftp.Fat.Paths.{stat_at}
use dftp.Update.Target.{StopsAt, take_in}
use dftp.Update.Runs.{all_ready}
use dftp.Update.Sets.{Compatible}
use dftp.LocalFs.{LocalFs}
use dftp.Cluster.{Cluster}
use dftp.Node.Present.{HasPeer}
use dftp.Main.Nodes.{batches, own_scan, scan-kept}
use dftp.System.{Started, Member, System, new_system, Run}
use dftp.Exchange.{full_update}
use dftp.Cluster.{UpdateData}
use dftp.Base.{Any-with, Any-map, Any-All, ◌⊎◌, ◌∙◌, inl, inr, refl, Any-witness}
use dftp.System.{Pushes, Carried}
use dftp.System.Spread.{Stands, Runs-stays}
use dftp.System.Deliver.{Grows, Becomes, deliver}
use dftp.System.Members.{Run-members}
use dftp.System.Settled.{scans, HasHeardAll, settles}
use dftp.System.Spread.{Runs, Run-append, stays, all_members, Run-Stands, Run-AllRun}
use dftp.System.Greet.{
  HasPorts, CanGreet, Met, CanGreet-stays, Met-stays, meet_one, name_of, OtherName, runs-name,
  can_greet,
}

-- The member has taken in what the program has scanned.
abbrev Heard : Member → Started → Type 0
Heard m p = Among (batches m.node) (own_scan p.start.cluster)

same-scan : (c d : Cluster) → c.local_fs ≡ d.local_fs → own_scan c ≡ own_scan d
same-scan c d e = ap (λ (fs : LocalFs). fs.last_full_scan) e

-- The member runs the program, whose update is carried, and has a push to end unless it runs all of them.
abbrev Ready : (UpdateData → UpdateData) → List Started → Started → Member → Type 0
Ready json ps p j =
    Runs p j
    × (json (full_update p.start.cluster) ≡ full_update p.start.cluster)
    × (Pushes j.cluster ⊎ All (λ p'. Runs p' j) ps)

Ready-stays :
    (json : UpdateData → UpdateData) (ps : List Started) (p : Started) (m m' : Member)
    → Grows m m'
    → Ready json ps p m
    → Ready json ps p m'
Ready-stays json ps p m m' g (r, c, inl k) = (Runs-stays p g.extends r, c, inl (g.pushes k))
Ready-stays json ps p m m' g (r, c, inr own) =
    (Runs-stays p g.extends r, c, inr (All-map (λ p' r'. Runs-stays p' g.extends r') ps own))

same_update :
    (p : Started) (j : Member) → Runs p j → full_update j.cluster ≡ full_update p.start.cluster
same_update p j (same_me, same_fs) = rw (same_me, same_fs) refl

sender_or_own :
    (m : Member) (ps : List Started) → All (Met m) ps → Pushes m.cluster ⊎ All (λ p. Runs p m) ps
sender_or_own m [] h = inr tt
sender_or_own m (p ∷ ps) (inr (peer, k, ne), h) = inl k
sender_or_own m (p ∷ ps) (inl r, h) = elim (sender_or_own m ps h) [
  | inl k ↦ inl k
  | inr own ↦ inr (r, own)
]

senders_stand :
    (json : UpdateData → UpdateData) (ps qs : List Started) (ms : List Member)
    → Carried json qs
    → Stands Runs qs ms
    → All (λ m. All (Met m) ps) ms
    → Stands (Ready json ps) qs ms
senders_stand json ps [] ms c h met = tt
senders_stand json ps (p ∷ qs) ms c h met = (
  Any-with (λ m r k. (r, c.0, sender_or_own m ps k)) ms h.0 met,
  senders_stand json ps qs ms c.1 h.1 met,
)

-- What a member needs to hear of a program.
abbrev CanHear : List Started → Member → Started → Type 0
CanHear ps m p = Met m p × Any (λ p'. Runs p' m) ps

CanHear-stays :
    (ps : List Started) (p : Started) (m m' : Member)
    → Grows m m'
    → CanHear ps m p
    → CanHear ps m' p
CanHear-stays ps p m m' g (h, a) =
    (Met-stays p m m' g h, Any-map (λ p' r. Runs-stays p' g.extends r) ps a)

-- A member that has greeted a program under another name is not the one that runs it, so that one has a
-- push to end.
sender_there :
    (ps : List Started) (m j : Member) (p : Started)
    → Runs p j
    → Any (λ p'. Runs p' m) ps
    → name_of p ≢ m.cluster.me.name
    → Pushes j.cluster ⊎ All (λ p'. Runs p' j) ps
    → Pushes j.cluster
sender_there ps m j p r a ne (inl k) = k
sender_there ps m j p r a ne (inr own) =
    let (p', r', r'') = Any-All ps a own in
    absurd (ne (sym (runs-name p j r) ∙ runs-name p' j r'' ∙ sym (runs-name p' m r')))

-- A member can take in what a peer has scanned.
hear_one :
    (json : UpdateData → UpdateData) (ps : List Started) (s : System) (before after : List Member)
    (m : Member) (p : Started)
    → s.members ≡ before ++ m ∷ after
    → Any (Ready json ps p) s.members
    → CanHear ps m p
    → Becomes json s before m after (λ m'. Heard m' p)
hear_one json ps s before after m p e a (inl (same_me, own), runs) =
    stays {P = λ m'. Heard m' p} s before after m e (
      subst (Among (batches m.node)) (same-scan m.cluster p.start.cluster own)
        (inl (ap (λ (fs : LocalFs). fs.last_full_scan) (scan-kept m.node))))
hear_one json ps s before after m p e a (inr (peer, k, ne), runs) =
    let (j, i, ((same_me, same_fs), carried, own)) = Any-witness s.members a in
    let r : Runs p j = (same_me, same_fs) in
    let same = same_update p j r in
    let (m', msgs, r', x, h) =
      deliver json s before after m j e i
        (subst (λ z. HasPeer z m.cluster) (sym (runs-name p j r)) peer)
        (sender_there ps m j p r runs ne own) (ap json same ∙ carried ∙ sym same) in
    (
      m',
      msgs,
      r',
      x,
      subst (Among (batches m'.node)) (same-scan j.cluster p.start.cluster same_fs) h,
    )

-- A member can take in what a peer has scanned, and has the peer after it.
hear_peer :
    (json : UpdateData → UpdateData) (ps : List Started) (s : System) (before after : List Member)
    (m : Member) (p : Started)
    → s.members ≡ before ++ m ∷ after
    → Any (Ready json ps p) s.members
    → CanHear ps m p
    → Becomes json s before m after (λ m'. Heard m' p × Met m' p)
hear_peer json ps s before after m p e a can =
    let (m', msgs, r, x, h) = hear_one json ps s before after m p e a can in
    (m', msgs, r, x, (h, Met-stays p m m' x can.0))

-- The member has the programs as peers, all but those with its own name.
abbrev pub HasPeers : List Started → Member → Type 0
HasPeers ps m = All (λ p. name_of p ≢ m.cluster.me.name → HasPeer (name_of p) m.cluster) ps

Met-HasPeer :
    (m : Member) (p : Started)
    → Met m p
    → name_of p ≢ m.cluster.me.name
    → HasPeer (name_of p) m.cluster
Met-HasPeer m p (inl r) ne = absurd (ne (sym (runs-name p m r)))
Met-HasPeer m p (inr h) ne = h.0

Met-HasPeers : (ps : List Started) (m : Member) → All (λ p. Heard m p × Met m p) ps → HasPeers ps m
Met-HasPeers ps m h = All-map (λ p (heard, met). Met-HasPeer m p met) ps h

Heard-HasHeardAll :
    (ps : List Started) (m : Member) → All (λ p. Heard m p × Met m p) ps → HasHeardAll ps m
Heard-HasHeardAll ps m h =
    All-mapped (Among (batches m.node)) (λ p. own_scan p.start.cluster) ps
      (All-map (λ p (heard, met). heard) ps h)

-- The members that events lead to have heard all, have all others as peers, and have the stat that taking
-- in all scans leaves.
abbrev pub CanSettle : (UpdateData → UpdateData) → List Started → System → Text → List Text → Type 0
CanSettle json ps s x q =
    (t : System) × Run json s t
    × All (HasHeardAll ps) t.members
    × All (HasPeers ps) t.members
    × All (λ m. stat_at m.cluster.dfs_root (x ∷ q) ≡ take_in (x ∷ q) none (all_ready (scans ps)))
        t.members

pub can_settle :
    (json : UpdateData → UpdateData) (ps : List Started) {s : System} (x : Text) (q : List Text)
    → Carried json ps
    → Run json (new_system ps) s
    → AllPairs OtherName ps
    → All (λ p. HasPorts p.start.cluster.me) ps
    → All (StopsAt (x ∷ q)) (all_ready (scans ps))
    → All (λ a. All (Compatible (x ∷ q) a) (all_ready (scans ps))) (all_ready (scans ps))
    → CanSettle json ps s x q
can_settle json ps {s} x q c r names ports stops compatible =
    let runs = Run-AllRun json ps r in
    let greetable = All-map (λ m a. can_greet ps m a names ports) s.members runs in
    let (ms, msgs, meets, met) =
      all_members json Met CanGreet Met-stays CanGreet-stays Runs
        (λ p m m' g. Runs-stays p g.extends) (meet_one json) ps s [] s.members refl
        (Run-Stands json ps r) greetable in
    let t : System = record { members = ms; sent = msgs } in
    let r1 = Run-append r meets in
    let ready = senders_stand json ps ps ms c (Run-Stands json ps r1) met in
    let can_hear =
      All-both (λ m h a. All-map (λ p k. (k, a)) ps h) ms met (Run-AllRun json ps r1) in
    let (ms', msgs', hears, heard) =
      all_members json (λ m p. Heard m p × Met m p) (CanHear ps)
        (λ p m m' g (h, k). (g.extends.more (own_scan p.start.cluster) h, Met-stays p m m' g k))
        (CanHear-stays ps) (Ready json ps) (Ready-stays json ps) (hear_peer json ps) ps t [] ms refl
        ready can_hear in
    let run = Run-append meets hears in
    let all = All-map (Heard-HasHeardAll ps) ms' heard in
    (
      record { members = ms'; sent = msgs' },
      run,
      all,
      All-map (Met-HasPeers ps) ms' heard,
      All-both (λ m k h. settles ps m k x q h stops compatible) ms'
          (Run-members json ps c (Run-append r run)) all,
    )
