-- ===== src/Node/Names.antt =====
-- The names that a greeting or an answer brings.
use dftp.Base.{
  inl, inr, Option-cases, if-holds, ℤ, [], ◌∷◌, Option, none, some, Text, ◌==◌, text_eq, Outcome,
  returns, panics, out_of_fuel, ◌>>=◌,
}
use dftp.Base.Assoc.{Assoc, insert}
use dftp.Cluster.{new_node, NodeInfo, UpdateData}
use dftp.Exchange.{Answer, PublicClusterInfo, info, answer_peers, combine_host_and_port}
use dftp.Mgmt.{Request, greeter}

-- The names of the records in a peer's list.
abbrev pub Names : (Text → Type 0) → Assoc (Option NodeInfo) → Type 0
Names N [] = Unit
Names N ((key, none) ∷ peers) = Names N peers
Names N ((key, some node) ∷ peers) = N node.name × Names N peers

abbrev pub OwnName : (Text → Type 0) → Option NodeInfo → Type 0
OwnName N none = Unit
OwnName N (some node) = N node.name

abbrev pub PeerNames : (Text → Type 0) → Option (Assoc (Option NodeInfo)) → Type 0
PeerNames N none = Unit
PeerNames N (some peers) = Names N peers

-- The names in what a peer answers to a greeting.
abbrev pub AnswerNames : (Text → Type 0) → Answer → Type 0
AnswerNames N (info r) = OwnName N r.me × PeerNames N r.peers
AnswerNames N _ = Unit

abbrev pub AllAnswers : (Text → Type 0) → (Text → Answer) → Type 0
AllAnswers N answers = (addr : Text) → AnswerNames N (answers addr)

abbrev pub Decoded : (UpdateData → Type 0) → Option UpdateData → Type 0
Decoded U none = Unit
Decoded U (some upd) = U upd

abbrev pub OnReturn : {A : Type 0} → (A → Type 0) → Outcome A → Type 0
OnReturn P (returns a) = P a
OnReturn P _ = Unit

bind-OnReturn :
    {A B : Type 0} (P : B → Type 0) (m : Outcome A) (k : A → Outcome B)
    → ((a : A) → OnReturn P (k a))
    → OnReturn P (m >>= k)
bind-OnReturn P (returns a) k h = h a
bind-OnReturn P panics k h = tt
bind-OnReturn P out_of_fuel k h = tt

insert-Names :
    (N : Text → Type 0) (key : Text) (node : NodeInfo) (peers : Assoc (Option NodeInfo))
    → N node.name
    → Names N peers
    → Names N (insert key (some node) peers)
unfolding insert
insert-Names N key node [] n h = (n, tt)
insert-Names N key node ((k, none) ∷ peers) n h =
    if-holds (Names N) (k == key) _ _ (n, h) (insert-Names N key node peers n h)
insert-Names N key node ((k, some old) ∷ peers) n h =
    if-holds (Names N) (k == key) _ _ (n, h.1) (h.0, insert-Names N key node peers n h.1)

pub answer_peers-Names :
    (N : Text → Type 0) (addr : Text) (now : ℤ) (r : PublicClusterInfo)
    → AnswerNames N (info r)
    → OnReturn (Names N) (answer_peers addr now r)
unfolding answer_peers
answer_peers-Names N addr now r h = elim (Option-cases r.me) [
  | inl e ↦ rw (e, answer_peers) tt
  | inr (node, e) ↦
      let n : N node.name = rw e at h.0 in
      rw (e, answer_peers)
        (bind-OnReturn (Names N) (combine_host_and_port addr node.public_addr) _ λ public_address.
          elim (Option-cases r.peers) [
            | inl none_known ↦ rw none_known tt
            | inr (peers, known) ↦
                let ns : Names N peers = rw known at h.1 in
                rw known (insert-Names N node.name _ peers n ns)
          ])
]

pub greeter-name :
    (N : Text → Type 0) (r : Request)
    → N r.form_name
    → OnReturn (λ (node : NodeInfo). N node.name) (greeter r)
greeter-name N r n =
    let named = λ (public_address mgmt_address : Text). record (new_node r.form_name) {
      public_addr = public_address;
      mgmt_addr = mgmt_address;
    } in
    let mgmt = combine_host_and_port r.remote_addr r.form_mgmt_addr in
    bind-OnReturn (λ (node : NodeInfo). N node.name)
      (combine_host_and_port r.remote_addr r.form_public_addr)
      (λ public_address. mgmt >>= λ mgmt_address. returns (named public_address mgmt_address))
      λ public_address.
        bind-OnReturn (λ (node : NodeInfo). N node.name) mgmt
          (λ mgmt_address. returns (named public_address mgmt_address)) (λ mgmt_address. n)
