-- ===== src/System/Settled.antt =====
-- The trees of a system once its nodes have heard from each other.
use dftp.Base.{
  List, [], ◌∷◌, map, none, Text, text_eq, ◌≡◌, inl, inr, Among, All, Any-mapped, Any-append_left,
  Any-append_right, All-map, All-append, All-among, among-All, All-mapped, ap, ◌∙◌, sym, subst,
}
use dftp.Fat.{new_root_node, lookup_child}
use dftp.Fat.Paths.{stat_at, node_at}
use dftp.Update.{FileAnnouncement}
use dftp.Update.Target.{StopsAt, take_in}
use dftp.Update.Stats.{IsFresh, ready_files}
use dftp.Update.Runs.{all_ready, update_all_correct}
use dftp.Update.Sets.{Compatible, take_in-among}
use dftp.LocalFs.{LocalFs}
use dftp.Exchange.{full_update}
use dftp.Exchange.Totals.{all_present-map}
use dftp.Node.Heard.{heard}
use dftp.Main.Launches.{returns-injective}
use dftp.Main.Nodes.{batches, batches-update, own_scan, own_scan-IsFresh, scan-kept}
use dftp.Cluster.{UpdateData}
use dftp.System.{Started, Member, new_member, new_system, System, Run, Carried}
use dftp.System.Known.{MemberKnown}
use dftp.System.Members.{Belongs, OwnUpdate, OwnScan, BatchKnown-OwnScan, Run-members}

-- What the programs of a system have scanned, one batch for each.
abbrev pub scans : List Started → List (List FileAnnouncement)
scans ps = map (λ p. own_scan p.start.cluster) ps

-- The member has taken in what each program has scanned, its own scan among them, at least once.
abbrev pub HasHeardAll : List Started → Member → Type 0
HasHeardAll ps m = All (Among (batches m.node)) (scans ps)

ready-among :
    (files : List FileAnnouncement) (bs : List (List FileAnnouncement))
    → Among bs files
    → All (Among (all_ready bs)) (ready_files files)
ready-among files [] m = absurd m
ready-among files (b ∷ bs) (inl e) = All-among (ready_files files) (λ fa i.
    Any-append_left (◌≡◌ fa) (ready_files b) (all_ready bs)
      (subst (λ z. Among (ready_files z) fa) e i))
ready-among files (b ∷ bs) (inr m) =
    All-map (λ fa i. Any-append_right (◌≡◌ fa) (ready_files b) (all_ready bs) i) (ready_files files)
      (ready-among files bs m)

pub all_ready-among :
    (bs bs' : List (List FileAnnouncement))
    → All (Among bs') bs
    → All (Among (all_ready bs')) (all_ready bs)
all_ready-among [] bs' h = tt
all_ready-among (b ∷ bs) bs' h =
    All-append (Among (all_ready bs')) (ready_files b) (all_ready bs) (ready-among b bs' h.0)
      (all_ready-among bs bs' h.1)

OwnScan-among :
    (ps : List Started) (files : List FileAnnouncement) → OwnScan ps files → Among (scans ps) files
OwnScan-among ps files = Any-mapped (◌≡◌ files) (λ p. own_scan p.start.cluster) ps

scans-IsFresh : (ps : List Started) → All (All IsFresh) (scans ps)
scans-IsFresh ps =
    All-mapped (All IsFresh) (λ p. own_scan p.start.cluster) ps
      (All-among ps (λ p a. own_scan-IsFresh (new_member p).node))

module _ (ps : List Started) (m : Member) (k : MemberKnown (Belongs ps) (OwnUpdate ps) m) where
  -- The member has taken in scans of the system's programs alone.
  pub batches-among : All (Among (scans ps)) (batches m.node)
  batches-among = (
    subst (Among (scans ps)) (ap (λ (fs : LocalFs). fs.last_full_scan) (scan-kept m.node)) (
        OwnScan-among ps (own_scan m.cluster) (
          BatchKnown-OwnScan ps (own_scan m.cluster)
            (full_update m.cluster, k.own_update, all_present-map (own_scan m.cluster)))),
    All-map (λ files b. OwnScan-among ps files (BatchKnown-OwnScan ps files b)) (heard m.node.run)
        k.batches,
  )

  pub batches-IsFresh : All (All IsFresh) (batches m.node)
  batches-IsFresh =
      All-map (λ files a. among-All (All IsFresh) (scans ps) a (scans-IsFresh ps)) (batches m.node)
        batches-among

  -- The tree of a member that has heard all is what taking in all scans leaves.
  pub settles :
      (x : Text) (q : List Text)
      → HasHeardAll ps m
      → All (StopsAt (x ∷ q)) (all_ready (scans ps))
      → All (λ a. All (Compatible (x ∷ q) a) (all_ready (scans ps))) (all_ready (scans ps))
      → stat_at m.cluster.dfs_root (x ∷ q) ≡ take_in (x ∷ q) none (all_ready (scans ps))
  unfolding node_at lookup_child
  settles x q all stops compatible =
      let only = all_ready-among (batches m.node) (scans ps) batches-among in
      let every = all_ready-among (scans ps) (batches m.node) all in
      let (root, e, t) = update_all_correct new_root_node (batches m.node) x q batches-IsFresh (
        All-map (λ fa a. among-All (StopsAt (x ∷ q)) (all_ready (scans ps)) a stops)
          (all_ready (batches m.node)) only) in
      let same : root ≡ m.cluster.dfs_root =
        returns-injective root m.cluster.dfs_root (sym e ∙ batches-update m.node) in
      ap (λ z. stat_at z (x ∷ q)) (sym same)
      ∙ t
      ∙ sym (
          take_in-among (x ∷ q) none (all_ready (scans ps)) (all_ready (batches m.node)) every only
            compatible)

-- Two members have the same stat at the path: the one that taking in all scans leaves.
abbrev pub Settled : List Started → Member → Member → Text → List Text → Type 0
Settled ps m m' x q =
    (stat_at m.cluster.dfs_root (x ∷ q) ≡ stat_at m'.cluster.dfs_root (x ∷ q))
    × (stat_at m.cluster.dfs_root (x ∷ q) ≡ take_in (x ∷ q) none (all_ready (scans ps)))

-- Programs that were started, and hear nothing from outside but datagrams, requests to join, and
-- requests that bring no greeting and no update: whatever arrives among them, late, repeated, out of
-- order or never, two nodes that have taken in the scan of each program at least once have the same
-- stat at a path, the one that taking in all scans leaves, if the scans announce nothing below the
-- path, and for the path only files, which have one stat if they have one time, and the updates of the
-- programs are decoded as they were encoded, as those of valid UTF-8 are.
pub settled :
    (json : UpdateData → UpdateData) (ps : List Started) {s : System} (m m' : Member) (x : Text)
    (q : List Text)
    → Carried json ps
    → Run json (new_system ps) s
    → Among s.members m
    → Among s.members m'
    → HasHeardAll ps m
    → HasHeardAll ps m'
    → All (StopsAt (x ∷ q)) (all_ready (scans ps))
    → All (λ a. All (Compatible (x ∷ q) a) (all_ready (scans ps))) (all_ready (scans ps))
    → Settled ps m m' x q
settled json ps {s} m m' x q c r i i' all all' stops compatible =
    let known = Run-members json ps c r in
    let e = settles ps m (among-All _ s.members i known) x q all stops compatible in
    let e' = settles ps m' (among-All _ s.members i' known) x q all' stops compatible in
    (e ∙ sym e', e)
