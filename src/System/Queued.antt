-- ===== src/System/Queued.antt =====
-- The calls of `PushFullUpdate` that a node which was started has still to end.
use dftp.Base.{List, [], ◌∷◌, Text, arith, inl, inr, refl, ◌≡◌, Any}
use dftp.Base.Assoc.{lookup}
use dftp.Cluster.{Cluster, Task, greet, push, receive}
use dftp.Node.Tasks.{is_push, count, IsTracked}
use dftp.Node.Tracked.{Reach-IsTracked}
use dftp.Main.Launches.{main-alone}
use dftp.Main.Nodes.{Node}
use dftp.System.{IsPush}

pub node-IsTracked : {c : Cluster} → Node c → IsTracked c
unfolding lookup
node-IsTracked n =
    let (peers, tasks) =
      main-alone n.options n.scan_t n.visits n.now n.start n.hostname n.started in
    Reach-IsTracked
      (record {
        pushes = λ k. rw (tasks, peers) refl;
        greets = λ k. rw (tasks, peers) (omega arith);
      })
      n.run

-- There is a call if one is counted.
pub counted : (ts : List Task) (key : Text) → count (is_push key) ts ≡ 1 → Any IsPush ts
counted [] key e = absurd (omega (arith, e))
counted (push k ∷ ts) key e = inl tt
counted (greet addr k ∷ ts) key e = inr (counted ts key (omega (arith, e)))
counted (receive upd ∷ ts) key e = inr (counted ts key (omega (arith, e)))
