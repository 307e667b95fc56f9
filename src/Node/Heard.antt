-- ===== src/Node/Heard.antt =====
-- The announcements that a node takes in along a run, batch by batch.
use dftp.Base.{
  ℤ, Bool, List, [], ◌∷◌, ◌++◌, Option, none, some, Text, text_eq, Outcome, returns, ◌≡◌, refl, inl,
  inr, Option-cases, ap, ◌∙◌, sym,
}
use dftp.Base.Assoc.{lookup}
use dftp.Fat.{TreeNode}
use dftp.Update.{FileAnnouncement, update}
use dftp.Update.Runs.{update_all}
use dftp.Cluster.{Cluster, NodeInfo, UpdateData, schedule_push, update_node}
use dftp.Cluster.Changes.{schedule_push-keeps, update_node-keeps}
use dftp.Exchange.{all_present, push_full_update, receive_update}
use dftp.Exchange.Receive.{receive_update-cases, >>=-eq-returns}
use dftp.Node.{
  with_tasks, Step, serve_cluster, serve_join, serve_update, hear, run_greet, run_push, run_receive,
  Reach, here, next,
}
use dftp.Node.Handlers

abbrev pub decoded_batch : Outcome (List FileAnnouncement) → List (List FileAnnouncement)
decoded_batch (returns files) = files ∷ []
decoded_batch _ = []

-- What a call of `ReceiveUpdate` takes in: the files of the update, if its sender is a peer.
abbrev pub batch_of : UpdateData → Option NodeInfo → List (List FileAnnouncement)
batch_of upd none = []
batch_of upd (some node) = decoded_batch (all_present upd.files)

abbrev pub heard_in : {c d : Cluster} → Step c d → List (List FileAnnouncement)
heard_in {c} (run_receive before after upd e r) = batch_of upd (lookup upd.sender_node_name c.peers)
heard_in (serve_cluster r) = []
heard_in (serve_join r answers now) = []
heard_in (serve_update r) = []
heard_in (hear ping addr answers now) = []
heard_in (run_greet before after addr key answer now e) = []
heard_in (run_push before after key accepted now e) = []

-- The batches of a run, in the order in which they were taken in.
unfoldable pub heard : {c d : Cluster} → Reach c d → List (List FileAnnouncement)
heard here = []
heard (next r s) = heard r ++ heard_in s

abbrev HasRoot : TreeNode → Cluster → Type 0
HasRoot root c = c.dfs_root ≡ root

update_node-HasRoot :
    (root : TreeNode) (newinfo : NodeInfo) (c : Cluster)
    → HasRoot root c
    → HasRoot root (update_node newinfo c)
update_node-HasRoot root = update_node-keeps (HasRoot root) (λ key node c h. h) (λ t c h. h)

schedule_push-HasRoot :
    (root : TreeNode) (key : Text) (c : Cluster)
    → HasRoot root c
    → HasRoot root (schedule_push key c)
schedule_push-HasRoot root = schedule_push-keeps (HasRoot root) (λ key node c h. h) (λ t c h. h)

push_full_update-HasRoot :
    (root : TreeNode) (key : Text) (accepted : Bool) (now : ℤ) (c : Cluster)
    → HasRoot root c
    → HasRoot root (push_full_update key accepted now c)
unfolding push_full_update
push_full_update-HasRoot root key accepted now c h = elim (Option-cases (lookup key c.peers)) [
  | inl e ↦ rw (e, push_full_update) h
  | inr (node, e) ↦ rw (e, push_full_update) h
]

-- An update that was received changes the tree as the files taken in do.
pub receive-heard :
    (upd : UpdateData) (c c' : Cluster)
    → receive_update upd c ≡ returns c'
    → update_all c.dfs_root (batch_of upd (lookup upd.sender_node_name c.peers))
      ≡ returns c'.dfs_root
unfolding update_all
receive-heard upd c c' e = elim (receive_update-cases upd c c' e) [
  | inl (unknown, same) ↦ rw (unknown, same) refl
  | inr a ↦ rw (a.known, a.decoded, a.result, a.updated) refl
]

-- A step changes the tree as the updates that it takes in do.
Step-heard :
    {c d : Cluster} (s : Step c d) → update_all c.dfs_root (heard_in s) ≡ returns d.dfs_root
unfolding update_all
Step-heard {c} (serve_cluster r) = ap returns (
    sym (
      Handlers.http_cluster-keeps (HasRoot c.dfs_root) (update_node-HasRoot _)
        (schedule_push-HasRoot _) (λ upd d h. h) r c refl))
Step-heard {c} (serve_join r answers now) = ap returns (
    sym (
      Handlers.http_join-keeps (HasRoot c.dfs_root) (update_node-HasRoot _)
        (schedule_push-HasRoot _) (λ upd d h. h) r answers now c refl))
Step-heard {c} (serve_update r) = ap returns (
    sym (
      Handlers.http_update-keeps (HasRoot c.dfs_root) (update_node-HasRoot _)
        (schedule_push-HasRoot _) (λ upd d h. h) r c refl))
Step-heard {c} (hear ping addr answers now) = ap returns (
    sym (
      Handlers.on_datagram-keeps (HasRoot c.dfs_root) (update_node-HasRoot _)
        (schedule_push-HasRoot _) (λ upd d h. h) ping addr answers now c refl))
Step-heard {c} (run_greet before after addr key answer now e) = ap returns (
    sym (
      Handlers.greet_node-keeps (HasRoot c.dfs_root) (update_node-HasRoot _)
        (schedule_push-HasRoot _) (λ upd d h. h) addr answer now (with_tasks (before ++ after) c)
        refl))
Step-heard {c} (run_push before after key accepted now e) =
    ap returns
      (sym (push_full_update-HasRoot _ key accepted now (with_tasks (before ++ after) c) refl))
Step-heard {c} (run_receive before after upd e r) =
    receive-heard upd (with_tasks (before ++ after) c) _ r

pub update_all-append :
    (n m : TreeNode) (us vs : List (List FileAnnouncement))
    → update_all n us ≡ returns m
    → update_all n (us ++ vs) ≡ update_all m vs
unfolding update_all
update_all-append n m [] vs e = ap (λ k. update_all k vs) (cc)
update_all-append n m (u ∷ us) vs e =
    let (k, first, rest) = >>=-eq-returns (update n u) (λ n'. update_all n' us) e in
    rw first (update_all-append k m us vs rest)

-- Whatever reaches a node, in any order: each update of a peer that it has taken in is one call of
-- `Update` on its tree, nothing else changes the tree, and no such call has failed.
pub Reach-heard :
    {c d : Cluster} (r : Reach c d) → update_all c.dfs_root (heard r) ≡ returns d.dfs_root
unfolding update_all heard
Reach-heard here = refl
Reach-heard (next r s) = update_all-append _ _ (heard r) (heard_in s) (Reach-heard r) ∙ Step-heard s
