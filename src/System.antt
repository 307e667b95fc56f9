-- ===== src/System.antt =====
-- Several programs (src/dftp) and the network between them. What a node posts or answers is put among the
-- messages sent, and stays there: it can arrive late, more than once, in another order or never. A step
-- of a member is a step of its node (Node), where the greetings, the updates and the answers that reach it
-- are among the messages sent; datagrams, other requests and failures can be any.
pub mod Known
pub mod Members
pub mod Settled
pub mod Deliver
pub mod Spread
pub mod Queued
pub mod Greet
pub mod Live
pub mod Alone
pub mod Listing
pub mod Serves
use dftp.Base.{
  true, ℤ, Bool, List, [], ◌∷◌, ◌++◌, map, All, Option, none, some, Text, codes, ◌≡◌, ◌⊎◌, Any,
}
use dftp.Cluster.{Cluster, UpdateData, Task, push}
use dftp.Exchange.{PublicClusterInfo, Answer, info, Greeting, greeting, full_update}
use dftp.Mgmt.{Request, posted, public_cluster_info}
use dftp.Node.{
  Step, serve_cluster, serve_join, serve_update, hear, run_greet, run_push, run_receive, here,
}
use dftp.LocalFs.{Visit}
use dftp.Main.{Options, Program, runs, main}
use dftp.Main.Nodes.{Node, after_step}
use dftp.Base.{Outcome, returns}

-- A program that `main` has started.
pub record Started : Type 0 where
  pub hostname : Option Text
  pub options : Options
  pub scan_t : ℤ
  pub visits : List Visit
  pub now : ℤ
  pub start : Program
  pub started : main hostname options scan_t visits now ≡ returns (runs start)

-- A program's node as it is now, and how it came there.
pub record Member : Type 0 where
  pub cluster : Cluster
  pub node : Node cluster

abbrev pub new_member : Started → Member
new_member p = record {
  cluster = p.start.cluster;
  node = record {
    hostname = p.hostname;
    options = p.options;
    scan_t = p.scan_t;
    visits = p.visits;
    now = p.now;
    start = p.start;
    started = p.started;
    run = here;
  };
}

abbrev pub moved : (m : Member) {d : Cluster} → Step m.cluster d → Member
moved m {d} st = record { cluster = d; node = after_step m.node st }

-- What nodes send: the form of `GreetNode`, the body of `PushFullUpdate`, and the answer to a greeting.
pub data Message : Type 0 where
  greets : Greeting → Message
  updates : UpdateData → Message
  answers : PublicClusterInfo → Message

pub record System : Type 0 where
  pub members : List Member
  pub sent : List Message

-- The updates of the programs are decoded as they were encoded, as those of valid UTF-8 are.
abbrev pub Carried : (UpdateData → UpdateData) → List Started → Type 0
Carried json ps = All (λ p. json (full_update p.start.cluster) ≡ full_update p.start.cluster) ps

-- The programs as they start, with nothing sent.
abbrev pub new_system : List Started → System
new_system ps = record { members = map new_member ps; sent = [] }

abbrev pub IsPush : Task → Type 0
IsPush (push key) = Unit
IsPush _ = ⊥

-- A call of `PushFullUpdate` is still to end.
abbrev pub Pushes : Cluster → Type 0
Pushes c = Any IsPush c.tasks

-- What a node can send: an update only in a call of `PushFullUpdate`; a greeting and an answer at any
-- time, since the user can make it join any address, and ask for its cluster info. `json` is what
-- decoding makes of an update that was encoded: invalid UTF-8 does not come back as it was.
abbrev pub Says : (UpdateData → UpdateData) → Cluster → Message → Type 0
Says json c (greets g) = g ≡ greeting c true
Says json c (updates upd) = (upd ≡ json (full_update c)) × Pushes c
Says json c (answers i) = i ≡ public_cluster_info c

-- The request posts the message's greeting.
abbrev pub Posts : Request → Message → Type 0
Posts r (greets g) = (from : Text) × (r ≡ posted g from)
Posts r _ = ⊥

abbrev pub AnswerSent : List Message → Answer → Type 0
AnswerSent sent (info i) = Any (◌≡◌ (answers i)) sent
AnswerSent sent _ = Unit

abbrev pub UpdateSent : List Message → Option UpdateData → Type 0
UpdateSent sent none = Unit
UpdateSent sent (some upd) = Any (◌≡◌ (updates upd)) sent

-- What reaches the node in the step was sent.
abbrev pub Arrives : List Message → {c d : Cluster} → Step c d → Type 0
Arrives sent (serve_cluster r) = r.method ≡ codes "POST" → Any (Posts r) sent
Arrives sent (serve_join r replies now) = (addr : Text) → AnswerSent sent (replies addr)
Arrives sent (serve_update r) = UpdateSent sent r.json_body
Arrives sent (hear ping from replies now) = (addr : Text) → AnswerSent sent (replies addr)
Arrives sent (run_greet before after addr key reply now e) = AnswerSent sent reply
Arrives sent (run_push before after key accepted now e) = Unit
Arrives sent (run_receive before after upd e r) = Unit

pub data Event (json : UpdateData → UpdateData) (s : System) : System → Type 0 where
  send :
      (before after : List Member) (m : Member) (msg : Message)
      → s.members ≡ before ++ m ∷ after
      → Says json m.cluster msg
      → Event json s (record s { sent = msg ∷ s.sent })
  act :
      (before after : List Member) (m : Member) {d : Cluster} (st : Step m.cluster d)
      → s.members ≡ before ++ m ∷ after
      → Arrives s.sent st
      → Event json s (record s { members = before ++ moved m st ∷ after })

pub data Run (json : UpdateData → UpdateData) (s : System) : System → Type 0 where
  begin : Run json s s
  then_event : {t u : System} → Run json s t → Event json t u → Run json s u
