-- ===== src/Node/Discovered.antt =====
-- Two nodes: one pings, the other one hears the ping and greets it.
use dftp.Base.{
  ℤ, false, [], ◌∷◌, ◌++◌, some, Text, codes, text_eq, byte_eq, returns, ◌≡◌, ◌≢◌, refl, sym, ap,
  ◌∙◌, ==_refl, ==_ne,
}
use dftp.Strings.Laws.{Lacks}
use dftp.LocalFs.{LocalFs}
use dftp.Cluster.{Cluster, NodeInfo, known_mgmt_adr}
use dftp.Exchange.{Answer, info, normal, greet_node, combine_host_and_port}
use dftp.Exchange.Addresses.{combine_host_and_port_lem}
use dftp.Mgmt.{DiscoveryPing, my_ping, on_datagram, public_cluster_info}
use dftp.Mgmt.Discovery.{ping}
use dftp.Node.{Reach}
use dftp.Node.Named.{IsNamed, Reach-IsNamed}
use dftp.Node.Meets.{Meets, greet_node-Meets}

-- An address of the form host:port
pub record HasPort (addr port : Text) : Type 0 where
  pub host : Text
  pub host_plain : Lacks b':' host
  pub port_plain : Lacks b':' port
  pub parts : addr ≡ host ++ b':' ∷ port

abbrev pub at_port : Text → Text → Text
at_port host port = host ++ b':' ∷ port

combined :
    (host rest addr port : Text)
    → Lacks b':' host
    → HasPort addr port
    → combine_host_and_port (host ++ b':' ∷ rest) addr ≡ returns (at_port host port)
combined host rest addr port h p =
    rw p.parts (combine_host_and_port_lem host rest p.host port [] h p.host_plain p.port_plain).0

colon-ne : (host port : Text) → at_port host port ≢ []
colon-ne [] port e = cc
colon-ne (h ∷ host) port e = cc

HasPort-ne : (addr port : Text) → HasPort addr port → addr ≢ []
HasPort-ne addr port p e = colon-ne p.host port (sym p.parts ∙ e)

-- A ping of another node that is not known by its address is answered by a greeting.
heard :
    (ping : DiscoveryPing) (host rest port : Text) (answers : Text → Answer) (now : ℤ) (d : Cluster)
    → ping.type ≡ codes "ping"
    → ping.node_name ≢ d.me.name
    → Lacks b':' host
    → HasPort ping.mgmt_addr port
    → known_mgmt_adr d (at_port host port) ≡ false
    → on_datagram (some ping) (host ++ b':' ∷ rest) answers now d
      ≡ greet_node (at_port host port) (answers (at_port host port)) now d
unfolding on_datagram
heard ping host rest port answers now d is_ping ne plain mgmt unknown =
    rw
      (
        is_ping,
        ==_refl (codes "ping"),
        ==_ne ping.mgmt_addr [] (HasPort-ne ping.mgmt_addr port mgmt),
        ==_ne ping.node_name d.me.name ne,
        combined host rest ping.mgmt_addr port plain mgmt,
        unknown,
      )
      refl

-- A node that hears the ping of another node, with another name and at a management address that it
-- does not know, meets it: whatever the node has done between its ping and its answer, it becomes a
-- greeted peer at the host that the ping came from and at its own ports, its push is no longer marked as
-- never started, and every peer of it, but the node that hears, becomes a peer too. This holds if both
-- addresses of the node that pings have the form host:port, and the host that the ping came from has no
-- colon, unlike an IPv6 one.
pub discovered :
    (self : NodeInfo) (fs : LocalFs) (c c' d : Cluster) (host rest port public_port : Text)
    (answers : Text → Answer) (now : ℤ)
    → IsNamed self fs c
    → Reach c c'
    → self.name ≢ d.me.name
    → Lacks b':' host
    → HasPort self.mgmt_addr port
    → HasPort self.public_addr public_port
    → known_mgmt_adr d (at_port host port) ≡ false
    → answers (at_port host port) ≡ info (public_cluster_info c')
    → (d' : Cluster) × (on_datagram (some (my_ping c)) (host ++ b':' ∷ rest) answers now d
        ≡ (d', normal))
      × Meets (at_port host port) (at_port host public_port) c' d d'
unfolding on_datagram
discovered self fs c c' d host rest port public_port answers now named r ne plain mgmt public
      unknown answered =
    let later = Reach-IsNamed self fs named r in
    let (d', met, meets) =
      greet_node-Meets self fs (at_port host port) (at_port host public_port) now c' d later
        (λ p. ne (ap (λ (n : NodeInfo). n.name) (sym later.same_me) ∙ p))
        (rw later.same_me (combined host port self.public_addr public_port plain public)) in
    (
      d',
      heard (my_ping c) host rest port answers now d refl
            (λ p. ne (ap (λ (n : NodeInfo). n.name) (sym named.same_me) ∙ p)) plain
            (rw named.same_me mgmt) unknown
          ∙ rw answered met,
      meets,
    )
