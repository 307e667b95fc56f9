-- ===== src/Node/Progress.antt =====
-- What can still happen to a push and to a greeting that are scheduled.
use dftp.Base.{
  ℤ, ◌<◌, Bool, true, false, List, [], ◌∷◌, ◌++◌, some, Text, text_eq, ◌≡◌, refl, arith, ap, ◌∙◌,
  Bool-cases, inl, inr, ==_refl, ==_ne,
}
use dftp.Base.Assoc.{lookup, lookup-insert}
use dftp.Fat.{TreeNode}
use dftp.LocalFs.{LocalFs}
use dftp.Cluster.{Cluster, NodeInfo, never, pending, done, Task, greet, push, receive, new_cluster}
use dftp.Exchange.{push_full_update}
use dftp.Node.{with_tasks, Step, run_push, Reach}
use dftp.Node.Tasks.{is_push, count}
use dftp.Node.Tracked.{new_cluster-IsTracked}

-- A call that is counted stands somewhere.
record Stands (p : Task → Bool) (ts : List Task) : Type 0 where
  before : List Task
  task : Task
  after : List Task
  split : ts ≡ before ++ task ∷ after
  counted : p task ≡ true

count-Stands : (p : Task → Bool) (ts : List Task) → 0 < count p ts → Stands p ts
count-Stands p [] h = absurd (omega arith)
count-Stands p (t ∷ ts) h = elim (Bool-cases (p t)) [
  | inl e ↦ record { before = []; task = t; after = ts; split = refl; counted = e }
  | inr e ↦
      let rest = count-Stands p ts (ground arith) in
      record {
        before = t ∷ rest.before;
        task = rest.task;
        after = rest.after;
        split = ap (λ z. t ∷ z) rest.split;
        counted = rest.counted;
      }
]

is_push-eq : (key : Text) (t : Task) → is_push key t ≡ true → t ≡ push key
is_push-eq key (push k) e = elim (text_eq.dec k key) [
  | yes same ↦ ap push same
  | no ne ↦ let f : false ≡ true = rw (==_ne k key ne) at e in cc
]
is_push-eq key (greet addr k) e = cc
is_push-eq key (receive upd) e = cc

-- A peer once its push has ended.
abbrev pub ended : Bool → ℤ → NodeInfo → NodeInfo
ended true now node = record node { push_state = done; last_update_pushed = now }
ended false now node = record node { push_state = never }

push-ends :
    (key : Text) (accepted : Bool) (now : ℤ) (c : Cluster) (node : NodeInfo)
    → lookup key c.peers ≡ some node
    → lookup key (push_full_update key accepted now c).peers ≡ some (ended accepted now node)
unfolding push_full_update
push-ends key true now c node e = rw (e, push_full_update) (rw (lookup-insert, ==_refl) refl)
push-ends key false now c node e = rw (e, push_full_update) (rw (lookup-insert, ==_refl) refl)

-- There is a step after which the push has ended so.
abbrev pub CanEnd : Cluster → Text → NodeInfo → Bool → ℤ → Type 0
CanEnd c key node accepted now =
    (c' : Cluster) × Step c c' × (lookup key c'.peers ≡ some (ended accepted now node))

-- In any state that a new node reaches, a push that is pending can end in one step, both ways: the
-- peer accepts it, or it fails and can be scheduled again.
pub push_progress :
    (root : TreeNode) (fs : LocalFs) (name public_addr mgmt_addr : Text) (start : ℤ) (c : Cluster)
    (key : Text) (node : NodeInfo) (accepted : Bool) (now : ℤ)
    → Reach (new_cluster root fs name public_addr mgmt_addr start) c
    → lookup key c.peers ≡ some node
    → node.push_state ≡ pending
    → CanEnd c key node accepted now
push_progress root fs name public_addr mgmt_addr start c key node accepted now r known p =
    let tracked = (new_cluster-IsTracked root fs name public_addr mgmt_addr start r).pushes key in
    let one : 0 < count (is_push key) c.tasks = ground arith in
    let s = count-Stands (is_push key) c.tasks one in
    let at : c.tasks ≡ s.before ++ push key ∷ s.after =
      s.split ∙ ap (λ t. s.before ++ t ∷ s.after) (is_push-eq key s.task s.counted) in
    (
      push_full_update key accepted now (with_tasks (s.before ++ s.after) c),
      run_push s.before s.after key accepted now at,
      push-ends key accepted now (with_tasks (s.before ++ s.after) c) node known,
    )
