-- ===== src/Mgmt/Errors.antt =====
-- The error paths of the management interface.
use dftp.Base.{ℤ, [], some, Text, codes, text_eq, byte_eq, ◌≡◌, ◌≢◌, ==_ne, ==_refl}
use dftp.Strings.Laws.{Lacks}
use dftp.Cluster.{Cluster}
use dftp.Exchange.{Answer, info, panicked, greet_node, answer_peers}
use dftp.Exchange.Addresses.{combine_host_and_port-panics}
use dftp.Mgmt.{public_cluster_info, DiscoveryPing, on_datagram}

-- The discovery loop panics on a ping of another node whose address has no colon.
pub ping_crash :
    (ping : DiscoveryPing) (client_addr : Text) (answers : Text → Answer) (now : ℤ) (c : Cluster)
    → ping.type ≡ codes "ping"
    → ping.mgmt_addr ≢ []
    → ping.node_name ≢ c.me.name
    → Lacks b':' ping.mgmt_addr
    → on_datagram (some ping) client_addr answers now c ≡ (c, panicked)
unfolding on_datagram
ping_crash ping client_addr answers now c t a n l = rw (
  t,
  ==_refl,
  ==_ne ping.mgmt_addr [] a,
  ==_ne ping.node_name c.me.name n,
  combine_host_and_port-panics client_addr ping.mgmt_addr l,
)

-- A node whose public address has no colon, such as one started with an empty `-http-listen`, makes
-- each node that greets it panic, by the answer that it gives to the greeting.
pub greet_crash :
    (addr : Text) (now : ℤ) (c d : Cluster)
    → Lacks b':' d.me.public_addr
    → greet_node addr (info (public_cluster_info d)) now c ≡ (c, panicked)
unfolding greet_node answer_peers
greet_crash addr now c d l = rw (combine_host_and_port-panics addr d.me.public_addr l)
