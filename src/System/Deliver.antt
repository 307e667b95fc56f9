-- ===== src/System/Deliver.antt =====
-- A full update that is sent, arrives and is taken in: three events of a system.
use dftp.Base.{
  List, [], ◌∷◌, ◌++◌, some, Text, text_eq, byte_eq, ◌≡◌, refl, inl, inr, Among, Any-append_left,
  Any-append_right, ap, ◌∙◌, sym, subst,
}
use dftp.Base.Assoc.{lookup}
use dftp.Update.{FileAnnouncement}
use dftp.Cluster.{Cluster, NodeInfo, UpdateData, receive, spawn, put_peer}
use dftp.Exchange.{full_update}
use dftp.Exchange.Receive.{stamped}
use dftp.Exchange.Totals.{Applied, Received, receive_update_lem, all_present-map}
use dftp.Mgmt.{posted_update, http_update}
use dftp.Node.{with_tasks, Step, serve_update, run_receive}
use dftp.Node.Heard.{heard, heard_in, batch_of, decoded_batch}
use dftp.Node.Present.{HasPeer, HasPeer-Keeps, present-some}
use dftp.Node.Steps.{Step-keeps}
use dftp.Main.Nodes.{batches, own_scan, own_scan-IsFresh, me_stays, fs_stays}
use dftp.System.{
  IsPush, Pushes, Member, moved, Message, updates, System, send, act, Run, begin, then_event,
}

-- The member has the record and the directory that it had, has taken in what it had, and has the peers that it had.
pub record Extends (m m' : Member) : Type 0 where
  pub same_me : m'.cluster.me ≡ m.cluster.me
  pub same_fs : m'.cluster.local_fs ≡ m.cluster.local_fs
  pub more :
      (files : List FileAnnouncement) → Among (batches m.node) files → Among (batches m'.node) files
  pub peers : (key : Text) → HasPeer key m.cluster → HasPeer key m'.cluster

pub Extends-self : (m : Member) → Extends m m
Extends-self m = record { same_me = refl; same_fs = refl; more = λ files a. a; peers = λ key h. h }

pub Extends-trans : {m m' m'' : Member} → Extends m m' → Extends m' m'' → Extends m m''
Extends-trans e e' = record {
  same_me = e'.same_me ∙ e.same_me;
  same_fs = e'.same_fs ∙ e.same_fs;
  more = λ files a. e'.more files (e.more files a);
  peers = λ key h. e'.peers key (e.peers key h);
}

pub moved-Extends : (m : Member) {d : Cluster} (st : Step m.cluster d) → Extends m (moved m st)
unfolding heard
moved-Extends m st = record {
  same_me = me_stays m.node st;
  same_fs = fs_stays m.node st;
  more = λ files a. Any-append_left (◌≡◌ files) (batches m.node) (heard_in st) a;
  peers = λ key h. Step-keeps (HasPeer key) (HasPeer-Keeps key) st h;
}

-- It has, moreover, a call of `PushFullUpdate` to end, if it had one.
pub record Grows (m m' : Member) : Type 0 where
  pub extends : Extends m m'
  pub pushes : Pushes m.cluster → Pushes m'.cluster

pub Grows-self : (m : Member) → Grows m m
Grows-self m = record { extends = Extends-self m; pushes = λ k. k }

pub Grows-trans : {m m' m'' : Member} → Grows m m' → Grows m' m'' → Grows m m''
Grows-trans g g' = record {
  extends = Extends-trans g.extends g'.extends;
  pushes = λ k. g'.pushes (g.pushes k);
}

pub split-among :
    {A : Type 0} (xs : List A) {x : A}
    → Among xs x
    → (before : List A) × (after : List A) × (xs ≡ before ++ x ∷ after)
split-among [] a = absurd a
split-among (y ∷ ys) (inl e) = ([], ys, ap (λ z. z ∷ ys) (sym e))
split-among (y ∷ ys) (inr a) =
    let (before, after, e) = split-among ys a in (y ∷ before, after, ap (λ z. y ∷ z) e)

module _ (m j : Member) {peer : NodeInfo}
    (known : lookup j.cluster.me.name m.cluster.peers ≡ some peer) where
  abbrev upd : UpdateData
  upd = full_update j.cluster

  -- The request starts a call of `ReceiveUpdate`.
  arrival : Step m.cluster (spawn (receive upd) m.cluster)
  unfolding http_update text_eq byte_eq
  arrival = serve_update (posted_update (λ u. u) upd)

  -- The member when the call has been taken out of its tasks.
  abbrev queued : Cluster
  queued = with_tasks (m.cluster.tasks ++ []) m.cluster

  taken : Applied upd queued (own_scan j.cluster) peer
  taken =
      subst (Received upd queued (own_scan j.cluster)) known
        (receive_update_lem upd queued (own_scan j.cluster) refl (own_scan-IsFresh j.node))

  abbrev received : Cluster
  received = put_peer j.cluster.me.name (stamped upd peer) (record queued { dfs_root = taken.0 })

  taking : Step (spawn (receive upd) m.cluster) received
  taking = run_receive m.cluster.tasks [] upd refl taken.1

  heard-taking : heard_in taking ≡ own_scan j.cluster ∷ []
  unfolding taking
  heard-taking = ap (batch_of upd) known ∙ ap decoded_batch (all_present-map (own_scan j.cluster))

  -- The member with the update taken in.
  delivered : Member
  delivered = moved (moved m arrival) taking

  delivered-Extends : Extends m delivered
  unfolding delivered
  delivered-Extends =
      Extends-trans (moved-Extends m arrival) (moved-Extends (moved m arrival) taking)

  delivered-Grows : Grows m delivered
  unfolding delivered
  delivered-Grows = record {
    extends = delivered-Extends;
    pushes = λ k. Any-append_left IsPush m.cluster.tasks [] k;
  }

  delivered-heard : Among (batches delivered.node) (own_scan j.cluster)
  unfolding delivered heard
  delivered-heard =
      Any-append_right (◌≡◌ (own_scan j.cluster)) (batches (moved m arrival).node) (heard_in taking)
        (rw heard-taking (inl refl))

-- The member at the place, after events that change no other member, has the property.
abbrev pub Becomes :
    (UpdateData → UpdateData)
    → System
    → List Member
    → Member
    → List Member
    → (Member → Type 0)
    → Type 0
Becomes json s before m after P =
    (m' : Member) × (msgs : List Message) × Run json s
      (record { members = before ++ m' ∷ after; sent = msgs })
    × Grows m m'
    × P m'

-- A member can take in the full update of a peer that has a call of `PushFullUpdate` to end, and whose update is
-- decoded as it was encoded.
pub deliver :
    (json : UpdateData → UpdateData) (s : System) (before after : List Member) (m j : Member)
    → s.members ≡ before ++ m ∷ after
    → Among s.members j
    → HasPeer j.cluster.me.name m.cluster
    → Pushes j.cluster
    → json (full_update j.cluster) ≡ full_update j.cluster
    → Becomes json s before m after (λ m'. Among (batches m'.node) (own_scan j.cluster))
unfolding arrival delivered taking
deliver json s before after m j e i h pushes carried =
    let (peer, known) = present-some (lookup j.cluster.me.name m.cluster.peers) h in
    let (left, right, split) = split-among s.members i in
    let told = send left right j (updates (full_update j.cluster)) split (sym carried, pushes) in
    let arrives = act before after m (arrival m j known) e (inl refl) in
    let ends = act before after (moved m (arrival m j known)) (taking m j known) refl tt in
    (
      delivered m j known,
      updates (full_update j.cluster) ∷ s.sent,
      then_event (then_event (then_event begin told) arrives) ends,
      delivered-Grows m j known,
      delivered-heard m j known,
    )
