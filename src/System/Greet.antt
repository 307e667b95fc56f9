-- ===== src/System/Greet.antt =====
-- A member of a system meets a program: it has the program's node as a peer.
use dftp.Base.{
  true, List, [], ◌∷◌, ◌++◌, Text, codes, text_eq, byte_eq, ◌≡◌, ◌≢◌, refl, ◌⊎◌, inl, inr, Any,
  Any-All, Any-witness, All, All-both, ap, ◌∙◌, sym, subst,
}
use dftp.Base.Perms.{AllPairs}
use dftp.Strings.Laws.{Lacks}
use dftp.Cluster.{NodeInfo}
use dftp.Exchange.{greeting}
use dftp.Mgmt.{posted, http_cluster}
use dftp.Mgmt.Greetings.{http_cluster-greets}
use dftp.Node.{serve_cluster}
use dftp.Node.Present.{HasPeer, present}
use dftp.System.{Started, Member, moved, greets, System, send, act, begin, then_event}
use dftp.System.Deliver.{Grows, split-among, moved-Extends, Becomes}
use dftp.System.Queued.{node-IsTracked, counted}
use dftp.Base.{some}
use dftp.Base.Assoc.{lookup}
use dftp.Main.Nodes.{Node}
use dftp.Cluster.{Cluster, UpdateData, pending}
use dftp.System.{Pushes}
use dftp.Node.{Step}
use dftp.System.Spread.{Runs, Runs-stays, stays}

-- The node has a name, and addresses that are ports alone, such as those of the flags' defaults.
pub record HasPorts (node : NodeInfo) : Type 0 where
  pub port : Text
  pub mgmt_port : Text
  pub port_plain : Lacks b':' port
  pub mgmt_plain : Lacks b':' mgmt_port
  pub public : node.public_addr ≡ b':' ∷ port
  pub mgmt : node.mgmt_addr ≡ b':' ∷ mgmt_port
  pub named : node.name ≢ []

-- The member runs the program, or the program can greet it.
abbrev pub CanGreet : Member → Started → Type 0
CanGreet m p =
    Runs p m ⊎ (HasPorts p.start.cluster.me × (p.start.cluster.me.name ≢ m.cluster.me.name))

-- The member runs the program, or has greeted it: it has it as a peer, and a push to end.
abbrev pub Met : Member → Started → Type 0
Met m p =
    Runs p m
    ⊎ (HasPeer p.start.cluster.me.name m.cluster
        × Pushes m.cluster
        × (p.start.cluster.me.name ≢ m.cluster.me.name))

pub CanGreet-stays : (p : Started) (m m' : Member) → Grows m m' → CanGreet m p → CanGreet m' p
CanGreet-stays p m m' g (inl r) = inl (Runs-stays p g.extends r)
CanGreet-stays p m m' g (inr (ports, ne)) =
    inr (ports, λ q. ne (q ∙ ap (λ (z : NodeInfo). z.name) g.extends.same_me))

pub Met-stays : (p : Started) (m m' : Member) → Grows m m' → Met m p → Met m' p
Met-stays p m m' g (inl r) = inl (Runs-stays p g.extends r)
Met-stays p m m' g (inr (h, k, ne)) = inr (
  g.extends.peers p.start.cluster.me.name h,
  g.pushes k,
  λ q. ne (q ∙ ap (λ (z : NodeInfo). z.name) g.extends.same_me),
)

-- A peer whose push is pending has a call to end.
pending-Pushes :
    {c : Cluster} (n : Node c) (key : Text) (node : NodeInfo)
    → lookup key c.peers ≡ some node
    → node.push_state ≡ pending
    → Pushes c
pending-Pushes {c} n key node known waits =
    counted c.tasks key ((node-IsTracked n).pushes key ∙ rw (known, waits) refl)

-- Where a greeting comes from, as the server sees it.
abbrev client : Text
client = codes "h:1"

module _ (m j : Member) (ports : HasPorts j.cluster.me)
    (ne : j.cluster.me.name ≢ m.cluster.me.name) where
  abbrev heard_greeting :
      Step m.cluster (http_cluster (posted (greeting j.cluster true) client) m.cluster).0
  heard_greeting = serve_cluster (posted (greeting j.cluster true) client)

  greets_back :
      (node : NodeInfo) × (lookup j.cluster.me.name (moved m heard_greeting).cluster.peers
        ≡ some node)
      × (node.push_state ≡ pending)
  unfolding text_eq
  greets_back =
      let (answer, known) =
        http_cluster-greets (posted (greeting j.cluster true) client) (codes "h") (codes "1")
          ports.port ports.mgmt_port (λ e. cc, tt) ports.port_plain ports.mgmt_plain refl
          ports.public ports.mgmt m.cluster refl ports.named ne in
      (_, known, refl)

  greeted-Pushes : Pushes (moved m heard_greeting).cluster
  greeted-Pushes =
      let (node, known, waits) = greets_back in
      pending-Pushes (moved m heard_greeting).node j.cluster.me.name node known waits

  greeted-HasPeer : HasPeer j.cluster.me.name (moved m heard_greeting).cluster
  greeted-HasPeer = let (node, known, waits) = greets_back in ap present known

  greeted-Grows : Grows m (moved m heard_greeting)
  greeted-Grows = record { extends = moved-Extends m heard_greeting; pushes = λ k. greeted-Pushes }

-- A member can meet a program that greets it.
pub meet_one :
    (json : UpdateData → UpdateData) (s : System) (before after : List Member) (m : Member)
    (p : Started)
    → s.members ≡ before ++ m ∷ after
    → Any (Runs p) s.members
    → CanGreet m p
    → Becomes json s before m after (λ m'. Met m' p)
meet_one json s before after m p e a (inl own) =
    stays {P = λ m'. Met m' p} s before after m e (inl own)
meet_one json s before after m p e a (inr (ports, ne)) =
    let (j, i, (same_me, same_fs)) = Any-witness s.members a in
    let (left, right, split) = split-among s.members i in
    let same_name = ap (λ (z : NodeInfo). z.name) same_me in
    let ports' = subst HasPorts (sym same_me) ports in
    let ne' : j.cluster.me.name ≢ m.cluster.me.name = λ q. ne (sym same_name ∙ q) in
    let g = greeting j.cluster true in
    let st = heard_greeting m j ports' ne' in
    let told = send left right j (greets g) split refl in
    let serves = act before after m st e (λ post. inl (client, refl)) in
    (
      moved m st,
      greets g ∷ s.sent,
      then_event (then_event begin told) serves,
      greeted-Grows m j ports' ne',
      inr (
        subst (λ z. HasPeer z (moved m st).cluster) same_name (greeted-HasPeer m j ports' ne'),
        greeted-Pushes m j ports' ne',
        λ q. ne (q ∙ ap (λ (z : NodeInfo). z.name) (moved-Extends m st).same_me),
      ),
    )

abbrev pub name_of : Started → Text
name_of p = p.start.cluster.me.name

abbrev pub OtherName : Started → Started → Type 0
OtherName p p' = name_of p ≢ name_of p'

pub runs-name : (p : Started) (m : Member) → Runs p m → m.cluster.me.name ≡ name_of p
runs-name p m (same_me, same_fs) = ap (λ (z : NodeInfo). z.name) same_me

pub can_greet :
    (ps : List Started) (m : Member)
    → Any (λ p. Runs p m) ps
    → AllPairs OtherName ps
    → All (λ p. HasPorts p.start.cluster.me) ps
    → All (CanGreet m) ps
can_greet [] m a names ports = tt
can_greet (p ∷ ps) m (inl r) names ports =
    (inl r, All-both (λ p' k ne. inr (k, λ e. ne (sym (e ∙ runs-name p m r)))) ps ports.1 names.0)
can_greet (p ∷ ps) m (inr a) names ports =
    let (p', r, ne) = Any-All ps a names.0 in
    (inr (ports.0, λ e. ne (e ∙ runs-name p' m r)), can_greet ps m a names.1 ports.1)
