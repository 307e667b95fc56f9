-- ===== src/Node/Pings.antt =====
-- The pings of a node that does other things meanwhile.
use dftp.Base.{
  ℕ, zero, suc, Bool, true, false, List, [], ◌∷◌, none, some, text_eq, byte_eq, if◌then◌else◌, ◌≡◌,
  refl, arith,
}
use dftp.Cluster.{Cluster, NodeInfo, schedule_push, schedule_greet, update_node}
use dftp.Exchange.{push_full_update}
use dftp.Mgmt.{DiscoveryPing, my_ping}
use dftp.Mgmt.Discovery.{ping_ticks, pingloop}
use dftp.Node.{Reach}
use dftp.Node.Steps.{Keeps, Reach-keeps}

-- The node has the names and addresses that the ping tells.
abbrev Tells : DiscoveryPing → Cluster → Type 0
Tells p c = my_ping c ≡ p

update_node-Tells :
    (p : DiscoveryPing) (newinfo : NodeInfo) (c : Cluster)
    → Tells p c
    → Tells p (update_node newinfo c)
unfolding update_node schedule_greet schedule_push
update_node-Tells p newinfo c h = ground arith

Tells-Keeps : (p : DiscoveryPing) → Keeps (Tells p)
unfolding schedule_push push_full_update
Tells-Keeps p = record {
  meets = update_node-Tells p;
  schedules = λ key c h. ground arith;
  starts = λ upd c h. h;
  drops = λ before after t c e h. h;
  pushes = λ key accepted now c h. ground arith;
  applies = λ upd node root c e h. h;
}

-- The states of the node at some ticks, one after another.
pub data Ticks : Cluster → List (Cluster × Bool) → Type 0 where
  stops : {c : Cluster} → Ticks c []
  tick :
      {c d : Cluster} {ticks : List (Cluster × Bool)} (written : Bool)
      → Reach c d
      → Ticks d ticks
      → Ticks c ((d, written) ∷ ticks)

-- The ticks whose ping was written.
abbrev pub writes : List (Cluster × Bool) → ℕ
writes [] = 0
writes ((c, written) ∷ ticks) = if written then suc (writes ticks) else writes ticks

abbrev pub replicate {ℓ} : {A : Type ℓ} → ℕ → A → List A
replicate zero p = []
replicate (suc n) p = p ∷ replicate n p

Ticks-same :
    (p : DiscoveryPing) {c : Cluster} {ticks : List (Cluster × Bool)}
    → Ticks c ticks
    → my_ping c ≡ p
    → ping_ticks ticks ≡ replicate (writes ticks) p
unfolding ping_ticks
Ticks-same p {ticks = []} stops e = refl
Ticks-same p (tick true r rest) e =
    let e' = Reach-keeps (Tells p) (Tells-Keeps p) r e in rw (e', Ticks-same p rest e') refl
Ticks-same p (tick false r rest) e = Ticks-same p rest (Reach-keeps (Tells p) (Tells-Keeps p) r e)

-- Whatever a node does while its ping loop runs, each ping that is written is the one that it
-- would have sent at the start, one at the start and one for each tick whose write succeeds; without
-- a socket nothing is sent.
pub pingloop_lem :
    (dialled written : Bool) (c : Cluster) (ticks : List (Cluster × Bool))
    → Ticks c ticks
    → pingloop dialled (c, written) ticks
      ≡ (if dialled then some (replicate (writes ((c, written) ∷ ticks)) (my_ping c)) else none)
unfolding pingloop
pingloop_lem false written c ticks h = refl
pingloop_lem true true c ticks h = rw (Ticks-same (my_ping c) h refl) refl
pingloop_lem true false c ticks h = rw (Ticks-same (my_ping c) h refl) refl
