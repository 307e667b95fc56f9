-- ===== src/Mgmt/Discovery.antt =====
-- src/dftp/cluster/multicastdiscovery.go: the start of the discovery and the pings that a node sends.
-- The outcomes of the socket calls are arguments: the address that ResolveUDPAddr makes, whether
-- ListenMulticastUDP and DialUDP succeed, and whether each Write does.
use dftp.Base.{ℤ, pos, ◌*◌, Bool, List, [], ◌∷◌, ◌++◌, Option, none, some, Text, if◌then◌else◌}
use dftp.Cluster.{Cluster}
use dftp.Mgmt.{DiscoveryPing, my_ping}

-- `DiscoveryPingPeriod`, in nanoseconds
abbrev pub discovery_ping_period : ℤ
discovery_ping_period = pos (55 * 1000000000)

-- The end of `StartMulticastDiscovery`: fatal, or with both loops started, which listen and ping at
-- the resolved address.
pub data Discovery (A : Type 0) : Type 0 where
  unresolved : Discovery A
  no_listener : Discovery A
  loops : A → Discovery A

-- `StartMulticastDiscovery`, up to the start of its loops
unfoldable pub start_multicast_discovery :
    {A : Type 0} → (Text → Option A) → (A → Bool) → Text → Discovery A
start_multicast_discovery resolve listens mcast_addr_str = elim (resolve mcast_addr_str) [
  | none ↦ unresolved
  | some mcaddr ↦ if listens mcaddr then loops mcaddr else no_listener
]

-- `ping`: what is sent, unless the write fails.
abbrev pub ping : Cluster × Bool → List DiscoveryPing
ping (c, written) = if written then my_ping c ∷ [] else []

unfoldable pub ping_ticks : List (Cluster × Bool) → List DiscoveryPing
ping_ticks [] = []
ping_ticks (t ∷ ticks) = ping t ++ ping_ticks ticks

-- `pingloop`: what it has sent after some ticks, given the state of the node at each one; the lack of
-- a socket is fatal.
unfoldable pub pingloop :
    Bool → Cluster × Bool → List (Cluster × Bool) → Option (List DiscoveryPing)
unfolding ping_ticks
pingloop dialled now ticks = if dialled then some (ping now ++ ping_ticks ticks) else none
