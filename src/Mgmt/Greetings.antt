-- ===== src/Mgmt/Greetings.antt =====
-- What a greeting over HTTP does.
use dftp.Base.{
  Bool, true, false, ◌||◌, [], ◌∷◌, ◌++◌, some, Text, codes, ◌==◌, text_eq, if◌then◌else◌, ◌≡◌, ◌≢◌,
  refl, ap, ◌∙◌, ==_ne, ==_refl, returns, Bool-cases, inl, inr,
}
use dftp.Base.Assoc.{lookup, lookup-insert}
use dftp.Strings.Laws.{Lacks}
use dftp.Cluster.{
  Cluster, NodeInfo, new_node, PeerState, never, pending, done, is_pending, peer_or_new,
  schedule_push, update_node,
}
use dftp.Cluster.Meet.{met, update_node_lem}
use dftp.Exchange.Addresses.{combine_host_and_port_lem}
use dftp.Mgmt.{
  Request, greeter, accept_greeting, http_cluster, respond_info, hear_greeting, catch_panic,
}

-- A push that is requested is pending, whatever it was.
abbrev pub requested : Bool → NodeInfo → NodeInfo
requested full node = if full then record node { push_state = pending } else node

-- The node that greets, with the address that it is heard from and the ports that it names.
abbrev pub greeter_at : Text → Text → Text → Text → NodeInfo
greeter_at name host port mgmt_port = record (new_node name) {
  public_addr = host ++ b':' ∷ port;
  mgmt_addr = host ++ b':' ∷ mgmt_port;
}

is_pending-eq : (s : PeerState) → is_pending s ≡ true → s ≡ pending
is_pending-eq pending e = refl
is_pending-eq never e = cc
is_pending-eq done e = cc

push_again :
    (key : Text) (c : Cluster) (node : NodeInfo)
    → lookup key c.peers ≡ some node
    → lookup key (schedule_push key c).peers ≡ some (requested true node)
unfolding schedule_push
push_again key c node e = elim (Bool-cases (is_pending node.push_state)) [
  | inl p ↦
      rw (e, schedule_push, p)
        (e ∙ ap (λ s. some (record node { push_state = s })) (is_pending-eq node.push_state p))
  | inr p ↦ rw (e, schedule_push, p) (rw (lookup-insert, ==_refl) refl)
]

accepted :
    (r : Request) (info : NodeInfo) (c : Cluster) (node : NodeInfo)
    → lookup info.name (update_node info c).peers ≡ some node
    → lookup info.name (accept_greeting r info c).peers
      ≡ some (requested (r.form_request_full_update == codes "true") node)
unfolding accept_greeting
accepted r info c node e = elim (Bool-cases (r.form_request_full_update == codes "true")) [
  | inl t ↦ rw (t, e) (push_again info.name (update_node info c) node e)
  | inr f ↦ rw f e
]

passes :
    {A : Type 0} (b1 b2 b3 b4 : Bool) (x y z : A)
    → b1 ≡ true
    → b2 ≡ false
    → b3 ≡ false
    → b4 ≡ false
    → (if b1 then (if b2 || b3 || b4 then x else y) else z) ≡ y
passes b1 b2 b3 b4 x y z e1 e2 e3 e4 = rw (e1, e2, e3, e4) refl

met_peer :
    (info : NodeInfo) (c : Cluster)
    → info.name ≢ c.me.name
    → lookup info.name (update_node info c).peers ≡ some (met info (peer_or_new c info.name))
met_peer info c ne =
    update_node_lem info c info.name ∙ rw (==_ne info.name c.me.name ne, ==_refl) refl

module _ (r : Request) (host rest port mgmt_port : Text) (lh : Lacks b':' host)
    (lp : Lacks b':' port) (lm : Lacks b':' mgmt_port) (er : r.remote_addr ≡ host ++ b':' ∷ rest)
    (ep : r.form_public_addr ≡ b':' ∷ port) (em : r.form_mgmt_addr ≡ b':' ∷ mgmt_port) where
  greeter_lem : greeter r ≡ returns (greeter_at r.form_name host port mgmt_port)
  greeter_lem =
      rw
        (
          er,
          ep,
          em,
          (combine_host_and_port_lem host rest [] port [] lh tt lp).0,
          (combine_host_and_port_lem host rest [] mgmt_port [] lh tt lm).0,
        )
        refl

  greeting_served :
      (c : Cluster)
      → r.method ≡ codes "POST"
      → r.form_name ≢ []
      → http_cluster r c
        ≡ respond_info (accept_greeting r (greeter_at r.form_name host port mgmt_port) c)
  unfolding http_cluster
  greeting_served c post named =
      passes (r.method == codes "POST") (r.form_name == []) (r.form_public_addr == [])
        (r.form_mgmt_addr == []) _ _ _ (ap (λ m. m == codes "POST") post ∙ ==_refl (codes "POST"))
        (==_ne r.form_name [] named) (==_ne r.form_public_addr [] (λ e. cc))
        (==_ne r.form_mgmt_addr [] (λ e. cc))
      ∙ ap (λ o. catch_panic (hear_greeting r o c)) greeter_lem

  -- A greeting of another node, with a port for each of its interfaces, which comes from a host without a
  -- colon, is answered with the cluster
  -- as it is afterwards. The node is then a peer, under the host that it is heard from, with its
  -- greeting and its push no longer marked as never started, and its push marked as pending if it asks
  -- for one.
  pub http_cluster-greets :
      (c : Cluster)
      → r.method ≡ codes "POST"
      → r.form_name ≢ []
      → r.form_name ≢ c.me.name
      → (http_cluster r c ≡ respond_info (http_cluster r c).0)
        × (lookup r.form_name (http_cluster r c).0.peers
            ≡ some (
                requested
                  (r.form_request_full_update == codes "true")
                  (met (greeter_at r.form_name host port mgmt_port) (peer_or_new c r.form_name))))
  http_cluster-greets c post named other =
      let info = greeter_at r.form_name host port mgmt_port in
      let served : http_cluster r c ≡ respond_info (accept_greeting r info c) =
        greeting_served c post named in
      (
        rw served refl,
        rw served
            (accepted r info c (met info (peer_or_new c r.form_name)) (met_peer info c other)),
      )
