-- ===== src/System/Known.antt =====
-- What reaches the members of a system: if the names and the updates of its programs have a property, then
-- all names and updates that its members know have it.
use dftp.Base.{
  List, [], ◌∷◌, ◌++◌, Option, none, some, Text, ◌≡◌, Any-All, among-All, All, All-append,
  All-append_left, All-append_right, Outcome, returns, panics, out_of_fuel, refl, text_eq, subst,
  sym,
}
use dftp.Base.Assoc.{Assoc, lookup, Values}
use dftp.Update.{FileAnnouncement}
use dftp.Cluster.{Cluster, NodeInfo, UpdateData, receive}
use dftp.Exchange.{Answer, info, full_update, all_present}
use dftp.Mgmt.{Request, public_peers}
use dftp.Node.{
  Step, serve_cluster, serve_join, serve_update, hear, run_greet, run_push, run_receive,
}
use dftp.Node.Names.{Names, AnswerNames, Decoded}
use dftp.Node.Heard.{decoded_batch, batch_of, heard, heard_in}
use dftp.Node.Knows.{Guard, Knows, Step-Knows, TaskUpdate}
use dftp.Main.Nodes.{me_stays, full_update_stays}
use dftp.System.{
  Member, moved, Message, greets, updates, answers, System, Says, Posts, AnswerSent, UpdateSent,
  Arrives, Event, send, act, Run, begin, then_event,
}

module _ (N : Text → Type 0) (U : UpdateData → Type 0) where
  abbrev pub MessageKnown : Message → Type 0
  MessageKnown (greets g) = N g.name
  MessageKnown (updates upd) = U upd
  MessageKnown (answers i) = AnswerNames N (info i)

  -- The batch comes from such an update.
  abbrev pub BatchKnown : List FileAnnouncement → Type 0
  BatchKnown files = (upd : UpdateData) × U upd × (all_present upd.files ≡ returns files)

  pub record MemberKnown (m : Member) : Type 0 where
    pub own_name : N m.cluster.me.name
    pub own_update : U (full_update m.cluster)
    pub knows : Knows N U m.cluster
    pub batches : All BatchKnown (heard m.node.run)

  pub record SystemKnown (s : System) : Type 0 where
    pub members : All MemberKnown s.members
    pub sent : All MessageKnown s.sent

  public_peers-Names :
      (peers : Assoc NodeInfo)
      → Values (λ (node : NodeInfo). N node.name) peers
      → Names N (public_peers peers)
  public_peers-Names [] h = tt
  public_peers-Names ((key, node) ∷ peers) h = (h.0, public_peers-Names peers h.1)

  Says-Known :
      (json : UpdateData → UpdateData)
      → ((upd : UpdateData) → U upd → U (json upd))
      → (m : Member) (msg : Message) → Says json m.cluster msg
      → MemberKnown m
      → MessageKnown msg
  Says-Known json keeps m (greets g) e k = subst (λ z. N z.name) (sym e) k.own_name
  Says-Known json keeps m (updates upd) (e, pushes) k =
      subst U (sym e) (keeps (full_update m.cluster) k.own_update)
  Says-Known json keeps m (answers i) e k =
      subst (λ z. AnswerNames N (info z)) (sym e)
        (k.own_name, public_peers-Names m.cluster.peers k.knows.names)

  Posts-name : (r : Request) (msg : Message) → Posts r msg → MessageKnown msg → N r.form_name
  Posts-name r (greets g) (from, e) k = subst (λ z. N z.form_name) (sym e) k
  Posts-name r (updates upd) p k = absurd p
  Posts-name r (answers i) p k = absurd p

  module _ (sent : List Message) (known : All MessageKnown sent) where
    AnswerSent-names : (reply : Answer) → AnswerSent sent reply → AnswerNames N reply
    AnswerSent-names (info i) a = among-All MessageKnown sent a known
    AnswerSent-names _ a = tt

    UpdateSent-known : (body : Option UpdateData) → UpdateSent sent body → Decoded U body
    UpdateSent-known none a = tt
    UpdateSent-known (some upd) a = among-All MessageKnown sent a known

    Arrives-Guard : {c d : Cluster} (st : Step c d) → Arrives sent st → Guard N U st
    Arrives-Guard (serve_cluster r) a =
        λ post. let (msg, p, k) = Any-All sent (a post) known in Posts-name r msg p k
    Arrives-Guard (serve_join r replies now) a = λ addr. AnswerSent-names (replies addr) (a addr)
    Arrives-Guard (serve_update r) a = UpdateSent-known r.json_body a
    Arrives-Guard (hear ping from replies now) a = λ addr. AnswerSent-names (replies addr) (a addr)
    Arrives-Guard (run_greet before after addr key reply now e) a = AnswerSent-names reply a
    Arrives-Guard (run_push before after key accepted now e) a = tt
    Arrives-Guard (run_receive before after upd e r) a = tt

  decoded-known :
      (upd : UpdateData) (o : Outcome (List FileAnnouncement))
      → all_present upd.files ≡ o
      → U upd
      → All BatchKnown (decoded_batch o)
  decoded-known upd (returns files) e u = ((upd, u, e), tt)
  decoded-known upd panics e u = tt
  decoded-known upd out_of_fuel e u = tt

  batch-known : (upd : UpdateData) (o : Option NodeInfo) → U upd → All BatchKnown (batch_of upd o)
  batch-known upd none u = tt
  batch-known upd (some node) u = decoded-known upd (all_present upd.files) refl u

  Step-batches : {c d : Cluster} (s : Step c d) → Knows N U c → All BatchKnown (heard_in s)
  Step-batches {c} (run_receive before after upd e r) k =
      let all : All (TaskUpdate U) (before ++ receive upd ∷ after) = rw e at k.updates in
      batch-known upd (lookup upd.sender_node_name c.peers)
        (All-append_right (TaskUpdate U) before (receive upd ∷ after) all).0
  Step-batches (serve_cluster r) k = tt
  Step-batches (serve_join r replies now) k = tt
  Step-batches (serve_update r) k = tt
  Step-batches (hear ping from replies now) k = tt
  Step-batches (run_greet before after addr key reply now e) k = tt
  Step-batches (run_push before after key accepted now e) k = tt

  moved-Known :
      (m : Member) {d : Cluster} (st : Step m.cluster d)
      → Guard N U st
      → MemberKnown m
      → MemberKnown (moved m st)
  unfolding heard
  moved-Known m st g k = record {
    own_name = rw (me_stays m.node st) k.own_name;
    own_update = subst U (sym (full_update_stays m.node st)) k.own_update;
    knows = Step-Knows N U st g k.knows;
    batches = All-append BatchKnown (heard m.node.run) _ k.batches (Step-batches st k.knows);
  }

  module _ (json : UpdateData → UpdateData)
      (keeps : (upd : UpdateData) → U upd → U (json upd)) where
    Event-Known : {s t : System} → Event json s t → SystemKnown s → SystemKnown t
    Event-Known {s} (send before after m msg e says) k =
        let all : All MemberKnown (before ++ m ∷ after) = rw e at k.members in
        record {
          members = k.members;
          sent = (
            Says-Known json keeps m msg says
                (All-append_right MemberKnown before (m ∷ after) all).0,
            k.sent,
          );
        }
    Event-Known {s} (act before after m st e arrives) k =
        let all : All MemberKnown (before ++ m ∷ after) = rw e at k.members in
        let rest = All-append_right MemberKnown before (m ∷ after) all in
        record {
          members =
              All-append MemberKnown before (moved m st ∷ after)
                (All-append_left MemberKnown before (m ∷ after) all)
                (moved-Known m st (Arrives-Guard s.sent k.sent st arrives) rest.0, rest.1);
          sent = k.sent;
        }

    pub Run-Known : {s t : System} → Run json s t → SystemKnown s → SystemKnown t
    Run-Known begin k = k
    Run-Known (then_event r e) k = Event-Known e (Run-Known r k)
