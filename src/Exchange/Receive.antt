-- ===== src/Exchange/Receive.antt =====
-- What a `ReceiveUpdate` that ends normally has done.
use dftp.Base.{
  List, none, some, Outcome, returns, panics, out_of_fuel, ◌>>=◌, ◌≡◌, refl, ◌⊎◌, inl, inr,
  Option-cases,
}
use dftp.Base.Assoc.{lookup}
use dftp.Fat.{TreeNode}
use dftp.Update.{FileAnnouncement, update}
use dftp.Cluster.{Cluster, NodeInfo, UpdateData, put_peer}
use dftp.Exchange.{receive_update, apply_update, all_present}

-- A bind that returns has a first part that returned.
pub >>=-eq-returns {ℓ κ} :
    {A : Type ℓ} {B : Type κ} (m : Outcome A) (f : A → Outcome B) {b : B}
    → (m >>= f) ≡ returns b
    → (a : A) × (m ≡ returns a) × (f a ≡ returns b)
>>=-eq-returns (returns a) f h = (a, refl, h)
>>=-eq-returns panics f h = cc
>>=-eq-returns out_of_fuel f h = cc

abbrev pub stamped : UpdateData → NodeInfo → NodeInfo
stamped upd node = record node {
  last_update_received = upd.update_time;
  last_full_update_received = upd.update_time;
}

-- The sender is a peer, and its update was applied.
pub record IsApplied (upd : UpdateData) (c c' : Cluster) : Type 0 where
  pub node : NodeInfo
  pub files : List FileAnnouncement
  pub root : TreeNode
  pub known : lookup upd.sender_node_name c.peers ≡ some node
  pub decoded : all_present upd.files ≡ returns files
  pub updated : update c.dfs_root files ≡ returns root
  pub result : c' ≡ put_peer upd.sender_node_name (stamped upd node) (record c { dfs_root = root })

applied :
    (upd : UpdateData) (c c' : Cluster) (found : NodeInfo)
    → lookup upd.sender_node_name c.peers ≡ some found
    → apply_update upd found c ≡ returns c'
    → IsApplied upd c c'
unfolding apply_update
applied upd c c' found k e =
    let (present, d, e') = >>=-eq-returns (all_present upd.files) _ e in
    let (tree, u, e'') = >>=-eq-returns (update c.dfs_root present) _ e' in
    record {
      node = found;
      files = present;
      root = tree;
      known = k;
      decoded = d;
      updated = u;
      result = cc;
    }

-- An update from a node that is no peer changes nothing; any other is applied.
pub receive_update-cases :
    (upd : UpdateData) (c c' : Cluster)
    → receive_update upd c ≡ returns c'
    → ((lookup upd.sender_node_name c.peers ≡ none) × (c' ≡ c)) ⊎ IsApplied upd c c'
unfolding receive_update
receive_update-cases upd c c' e = elim (Option-cases (lookup upd.sender_node_name c.peers)) [
  | inl k ↦ let e' : returns c ≡ returns c' = rw (k, receive_update) at e in inl (k, cc)
  | inr (node, k) ↦
      let e' : apply_update upd node c ≡ returns c' = rw (k, receive_update) at e in
      inr (applied upd c c' node k e')
]
