-- ===== src/Proxy/Cache.antt =====
-- src/dftp/cluster/proxy.go: the reverse proxies that a node keeps, one for each peer it was asked for.
use mathlib.Core.Option
use dftp.Base.{
  [], Option, none, some, Text, codes, text_eq, ◌≡◌, refl, inl, inr, sym, ap, ◌∙◌, Option-cases,
  ==_refl, ==_ne,
}
use dftp.Base.Assoc.{Assoc, lookup, insert, lookup-insert}
use dftp.Cluster.{Cluster, NodeInfo}
use dftp.Node.{Step, Reach}
use dftp.Node.Steps.{Step-keeps, Reach-keeps}
use dftp.Node.Present.{HasPeer, HasPeer-Keeps, present-some}

-- A `*httputil.ReverseProxy`, by what its Director has captured: the peer, named by its key.
pub record ReverseProxy : Type 0 where
  pub node : Text

-- The part of `Proxy` that it alone holds; its cluster is passed on its own.
pub record ProxyCache : Type 0 where
  pub proxies : Assoc ReverseProxy

-- `NewProxy`
abbrev pub new_proxy : ProxyCache
new_proxy = record { proxies = [] }

-- `GetHttpProxy`
unfoldable pub get_http_proxy : Text → Cluster → ProxyCache → ProxyCache × Option ReverseProxy
unfolding lookup insert
get_http_proxy node_name c p = elim (lookup node_name p.proxies) [
  | some proxy ↦ (p, some proxy)
  | none ↦ elim (lookup node_name c.peers) [
    | none ↦ (p, none)
    | some node ↦
        let proxy : ReverseProxy = record { node = node_name } in
        (record { proxies = insert node_name proxy p.proxies }, some proxy)
  ]
]

-- The fields of a request's URL that a Director can set.
pub record Url : Type 0 where
  pub scheme : Text
  pub host : Text
  pub path : Text

-- The URL of a request that goes to a node.
abbrev pub directed : Url → NodeInfo → Url
directed url node = record url { scheme = codes "http"; host = node.public_addr }

-- The Director of a proxy, in the state of the node when it is called. The peer that it has captured
-- is never removed, so the first case does not occur.
unfoldable pub director : Cluster → ReverseProxy → Url → Url
unfolding lookup
director c proxy url = elim (lookup proxy.node c.peers) [
  | none ↦ url
  | some node ↦ directed url node
]

-- A run of a node with its proxies: the steps of the node, and calls of `GetHttpProxy`.
pub data Runs (c : Cluster) : Cluster → ProxyCache → Type 0 where
  fresh : Runs c c new_proxy
  moves : {d e : Cluster} {p : ProxyCache} → Runs c d p → Step d e → Runs c e p
  serves :
      {d : Cluster} {p : ProxyCache} (node_name : Text)
      → Runs c d p
      → Runs c d (get_http_proxy node_name d p).0

-- Each proxy is kept for the peer that it directs to.
abbrev IsCached : Cluster → ProxyCache → Text → Type 0
IsCached c p key =
    (proxy : ReverseProxy) → lookup key p.proxies ≡ some proxy → (proxy.node ≡ key) × HasPeer key c

abbrev node_or : Text → Option ReverseProxy → Text
node_or key none = key
node_or key (some proxy) = proxy.node

get_http_proxy-IsCached :
    (node_name : Text) (c : Cluster) (p : ProxyCache)
    → ((key : Text) → IsCached c p key)
    → (key : Text) → IsCached c (get_http_proxy node_name c p).0 key
unfolding get_http_proxy
get_http_proxy-IsCached node_name c p h key proxy e =
    elim (Option-cases (lookup node_name p.proxies)) [
      | inr (cached, found) ↦ h key proxy (rw (found, get_http_proxy) at e)
      | inl absent ↦ elim (Option-cases (lookup node_name c.peers)) [
        | inl unknown ↦ h key proxy (rw (absent, unknown, get_http_proxy) at e)
        | inr (node, known) ↦
            let made : ReverseProxy = record { node = node_name } in
            let e' =
              rw (absent, known, get_http_proxy, lookup-insert node_name key made p.proxies) at e in
            elim (text_eq.dec node_name key) [
              | yes same ↦
                  let e2 = rw (same, ==_refl) at e' in
                  (ap (node_or key) (sym e2), rw (sym same) (rw known refl))
              | no ne ↦ h key proxy (rw (==_ne node_name key ne) at e')
            ]
      ]
    ]

Runs-IsCached : {c d : Cluster} {p : ProxyCache} → Runs c d p → (key : Text) → IsCached d p key
unfolding lookup
Runs-IsCached fresh key = λ proxy e. cc
Runs-IsCached (moves r s) key = λ proxy e.
    let (same, has) = Runs-IsCached r key proxy e in
    (same, Step-keeps (HasPeer key) (HasPeer-Keeps key) s has)
Runs-IsCached {d = d} (serves {p = p} node_name r) key =
    get_http_proxy-IsCached node_name d p (Runs-IsCached r) key

-- The proxy of a peer.
abbrev pub proxy_of : Text → ReverseProxy
proxy_of key = record { node = key }

director-peer :
    (c : Cluster) (key : Text) (url : Url)
    → HasPeer key c
    → some (director c (proxy_of key) url) ≡ Option.map (directed url) (lookup key c.peers)
unfolding director
director-peer c key url h =
    let (node, known) = present-some (lookup key c.peers) h in rw (known, director) refl

-- A URL over HTTP at the node's public address, with the path it had.
abbrev pub at_node : Url → NodeInfo → Url
at_node url node = record { scheme = codes "http"; host = node.public_addr; path = url.path }

-- What a proxy that was asked for in one state of a node does to a URL in a later state.
abbrev directs_later : Text → Cluster → Cluster → Url → Option Url
directs_later node_name c d url = elim (lookup node_name c.peers) [
  | none ↦ none
  | some node ↦ Option.map (at_node url) (lookup node_name d.peers)
]

-- In any run of a node with its proxies, a proxy is given exactly for a peer, and whatever the node
-- reaches later, it sends requests to the address that this very peer has then, over HTTP and with
-- the path they had.
pub get_http_proxy_lem :
    (start c d : Cluster) (p : ProxyCache) (node_name : Text) (url : Url)
    → Runs start c p
    → Reach c d
    → Option.map (λ proxy. director d proxy url) (get_http_proxy node_name c p).1
      ≡ directs_later node_name c d url
unfolding get_http_proxy
get_http_proxy_lem start c d p node_name url r later =
    let cached = Runs-IsCached r node_name in
    let later_has : HasPeer node_name c → HasPeer node_name d =
      Reach-keeps (HasPeer node_name) (HasPeer-Keeps node_name) later in
    elim (Option-cases (lookup node_name p.proxies)) [
      | inr (proxy, found) ↦
          let (same, has) = cached proxy found in
          let (node, known) = present-some (lookup node_name c.peers) has in
          rw (found, known, get_http_proxy, directs_later)
            (ap (λ key. some (director d (proxy_of key) url)) same
              ∙ director-peer d node_name url (later_has has))
      | inl absent ↦ elim (Option-cases (lookup node_name c.peers)) [
        | inl unknown ↦ rw (absent, unknown, get_http_proxy, directs_later) refl
        | inr (node, known) ↦
            rw (absent, known, get_http_proxy, directs_later)
              (director-peer d node_name url (later_has (rw known refl)))
      ]
    ]
