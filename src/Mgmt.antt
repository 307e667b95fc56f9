-- ===== src/Mgmt.antt =====
-- src/dftp/cluster/mgmthttp.go and multicastdiscovery.go: what peers can ask of a node, over HTTP and
-- by datagrams. A handler runs under `panicCatcherMiddleware` (httputils/httputil.go), which answers
-- a panic with a status 500; nothing catches a panic in the discovery loop or in a `go` call.
pub mod Errors
pub mod Greetings
pub mod Discovery
pub mod Routes
use dftp.Base.{
  ℕ, ℤ, pos, Bool, true, false, not, ◌&&◌, ◌||◌, List, [], ◌∷◌, ◌++◌, map, Option, none, some, Text,
  codes, ◌==◌, text_eq, if◌then◌else◌, Outcome, returns, panics, out_of_fuel, ◌>>=◌, ◌≡◌, refl,
}
use dftp.Base.Assoc.{Assoc, lookup}
use dftp.Cluster.{
  Cluster, NodeInfo, never, new_node, UpdateData, receive, spawn, known_mgmt_adr, update_node,
  schedule_push,
}
use dftp.Exchange.{
  PublicClusterInfo, Answer, Ending, normal, panicked, Greeting, greet_node, combine_host_and_port,
}

-- What the handlers read of a request: the form values, absent ones empty, and the body as JSON.
pub record Request : Type 0 where
  pub method : Text
  pub remote_addr : Text
  pub form_name : Text
  pub form_public_addr : Text
  pub form_mgmt_addr : Text
  pub form_request_full_update : Text
  pub form_peers : List Text
  pub content_type : Text
  pub json_body : Option UpdateData

-- What `HttpCluster` reads of a greeting that `PostForm` sends; a value that was not set is empty.
abbrev pub posted : Greeting → Text → Request
posted g from = record {
  method = codes "POST";
  remote_addr = from;
  form_name = g.name;
  form_public_addr = g.public_addr;
  form_mgmt_addr = g.mgmt_addr;
  form_request_full_update = if g.request_full_update then codes "true" else [];
  form_peers = [];
  content_type = codes "application/x-www-form-urlencoded";
  json_body = none;
}

-- The request of `PushFullUpdate`, with what decoding makes of the update that it encodes as JSON.
abbrev pub posted_update : (UpdateData → UpdateData) → UpdateData → Request
posted_update json upd = record {
  method = codes "POST";
  remote_addr = [];
  form_name = [];
  form_public_addr = [];
  form_mgmt_addr = [];
  form_request_full_update = [];
  form_peers = [];
  content_type = codes "application/json";
  json_body = some (json upd);
}

pub data Response : Type 0 where
  error : ℕ → Response
  cluster_info : PublicClusterInfo → Response
  ok : Response

-- The fields of a peer's record that JSON carries, as they are read again.
abbrev pub encoded : NodeInfo → NodeInfo
encoded node = record node { greet_state = never; push_state = never }

abbrev pub public_peers : Assoc NodeInfo → Assoc (Option NodeInfo)
public_peers [] = []
public_peers ((key, node) ∷ peers) = (key, some (encoded node)) ∷ public_peers peers

-- `c.PublicClusterInfo`, which `httpClusterInfoResponse` encodes, as a peer decodes it
abbrev pub public_cluster_info : Cluster → PublicClusterInfo
public_cluster_info c = record {
  name = c.name;
  me = some (encoded c.me);
  peers = some (public_peers c.peers);
}

abbrev pub respond_info : Cluster → Cluster × Response
respond_info c = (c, cluster_info (public_cluster_info c))

-- `panicCatcherMiddleware` around a handler that ends by answering with the cluster info: after a panic
-- the answer is a status 500, and what the handler has written stays.
abbrev pub catch_panic : Cluster × Ending → Cluster × Response
catch_panic (c, normal) = respond_info c
catch_panic (c, panicked) = (c, error 500)

-- The node that a greeting is about.
abbrev pub greeter : Request → Outcome NodeInfo
greeter r = combine_host_and_port r.remote_addr r.form_public_addr >>= λ public_address.
    combine_host_and_port r.remote_addr r.form_mgmt_addr >>= λ mgmt_address.
    returns
      (record (new_node r.form_name) { public_addr = public_address; mgmt_addr = mgmt_address })

-- The rest of a greeting, once the addresses are known.
unfoldable pub accept_greeting : Request → NodeInfo → Cluster → Cluster
unfolding update_node schedule_push lookup
accept_greeting r info c =
    let c1 = update_node info c in
    if r.form_request_full_update == codes "true"
    then elim (lookup info.name c1.peers) [ none ↦ c1 | some node ↦ schedule_push info.name c1 ]
    else c1

-- A greeting, whose addresses can make the handler panic.
abbrev pub hear_greeting : Request → Outcome NodeInfo → Cluster → Cluster × Ending
hear_greeting r (returns newinfo) c = (accept_greeting r newinfo c, normal)
hear_greeting r _ c = (c, panicked)

-- `HttpCluster`
unfoldable pub http_cluster : Request → Cluster → Cluster × Response
unfolding accept_greeting combine_host_and_port
http_cluster r c =
    if r.method == codes "POST"
    then (if r.form_name == [] || r.form_public_addr == [] || r.form_mgmt_addr == []
        then (c, error 400)
        else catch_panic (hear_greeting r (greeter r) c))
    else respond_info c

-- The loop of `HttpJoin`: the greetings one after another, the first panic ending it.
unfoldable pub join_loop : (Text → Answer) → ℤ → List Text → Cluster → Cluster × Ending
unfolding greet_node
join_loop answers now [] c = (c, normal)
join_loop answers now (addr ∷ addrs) c =
    let (c', ending) = greet_node addr (answers addr) now c in
    elim ending [ normal ↦ join_loop answers now addrs c' | panicked ↦ (c', panicked) ]

-- `HttpJoin`; `answers` is what each address answers to the greeting.
unfoldable pub http_join : Request → (Text → Answer) → ℤ → Cluster → Cluster × Response
unfolding join_loop
http_join r answers now c =
    if not (r.method == codes "POST") then (c, error 405) else elim r.form_peers [
      | [] ↦ (c, error 400)
      | addr ∷ addrs ↦ catch_panic (join_loop answers now (addr ∷ addrs) c)
    ]

-- `HttpUpdate`
unfoldable pub http_update : Request → Cluster → Cluster × Response
http_update r c =
    if not (r.method == codes "POST")
    then (c, error 405)
    else if not (r.content_type == codes "application/json")
    then (c, error 400)
    else elim r.json_body [ none ↦ (c, error 400) | some upd ↦ (spawn (receive upd) c, ok) ]

-- `HttpIndex`
abbrev pub http_index : Cluster → Cluster × Response
http_index c = (c, error 404)

-- `DiscoveryPing`
pub record DiscoveryPing : Type 0 where
  pub type : Text
  pub cluster_name : Text
  pub node_name : Text
  pub mgmt_addr : Text

-- The ping that a node sends.
abbrev pub my_ping : Cluster → DiscoveryPing
my_ping c = record {
  type = codes "ping";
  cluster_name = c.name;
  node_name = c.me.name;
  mgmt_addr = c.me.mgmt_addr;
}

abbrev pub greet_unknown : (Text → Answer) → ℤ → Cluster → Outcome Text → Cluster × Ending
greet_unknown answers now c (returns addr) =
    if not (known_mgmt_adr c addr) then greet_node addr (answers addr) now c else (c, normal)
greet_unknown answers now c panics = (c, panicked)
greet_unknown answers now c out_of_fuel = (c, panicked)

-- One round of the `listen` loop of `StartMulticastDiscovery`: a datagram that decodes, or does not.
unfoldable pub on_datagram :
    Option DiscoveryPing → Text → (Text → Answer) → ℤ → Cluster → Cluster × Ending
unfolding known_mgmt_adr greet_node combine_host_and_port
on_datagram none client_addr answers now c = (c, normal)
on_datagram (some ping) client_addr answers now c =
    if ping.type == codes "ping" && not (ping.mgmt_addr == []) && not (ping.node_name == c.me.name)
    then greet_unknown answers now c (combine_host_and_port client_addr ping.mgmt_addr)
    else (c, normal)
