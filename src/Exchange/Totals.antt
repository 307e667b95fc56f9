-- ===== src/Exchange/Totals.antt =====
-- `ReceiveUpdate` on what peers send.
use dftp.Base.{List, [], ◌∷◌, ◌++◌, map, Option, none, some, All, returns, panics, ◌≡◌, refl}
use dftp.Base.Assoc.{lookup}
use dftp.Fat.{TreeNode}
use dftp.Update.{FileAnnouncement}
use dftp.Update.Entries.{TakesIn}
use dftp.Update.Stats.{IsFresh, ready_files, update_correct}
use dftp.Cluster.{Cluster, NodeInfo, UpdateData, put_peer}
use dftp.Exchange.{receive_update, apply_update, all_present}
use dftp.Exchange.Receive.{stamped}

pub all_present-map : {A : Type 0} (xs : List A) → all_present (map some xs) ≡ returns xs
unfolding all_present
all_present-map [] = refl
all_present-map (x ∷ xs) = rw (all_present-map xs) refl

-- The update of a peer is in the tree, and its time is in the peer's record.
abbrev pub Applied : UpdateData → Cluster → List FileAnnouncement → NodeInfo → Type 0
Applied upd c files node =
    (root : TreeNode) × (receive_update upd c
      ≡ returns (put_peer upd.sender_node_name (stamped upd node) (record c { dfs_root = root })))
    × TakesIn c.dfs_root root (ready_files files)

abbrev pub Received : UpdateData → Cluster → List FileAnnouncement → Option NodeInfo → Type 0
Received upd c files none = receive_update upd c ≡ returns c
Received upd c files (some node) = Applied upd c files node

received :
    (upd : UpdateData) (c : Cluster) (files : List FileAnnouncement) (o : Option NodeInfo)
    → lookup upd.sender_node_name c.peers ≡ o
    → upd.files ≡ map some files
    → All IsFresh files
    → Received upd c files o
unfolding receive_update apply_update
received upd c files none k e fresh = rw (k, receive_update) refl
received upd c files (some node) k e fresh =
    let (root, u, t) = update_correct c.dfs_root files fresh in
    (root, rw (k, receive_update, e, all_present-map files, u) refl, t)

-- An update without nil announcements, and without an empty slice of parts set beforehand in one of
-- them, comes to an end without a panic. If its sender is a peer, the
-- tree has taken in the announcements and the peer's record has the update's time, as that of its
-- last update and of its last full one; if not, nothing changes.
pub receive_update_lem :
    (upd : UpdateData) (c : Cluster) (files : List FileAnnouncement)
    → upd.files ≡ map some files
    → All IsFresh files
    → Received upd c files (lookup upd.sender_node_name c.peers)
receive_update_lem upd c files e fresh = received upd c files _ refl e fresh

all_present-nil :
    {A : Type 0} (xs : List A) (rest : List (Option A))
    → all_present (map some xs ++ none ∷ rest) ≡ panics
unfolding all_present
all_present-nil [] rest = refl
all_present-nil (x ∷ xs) rest = rw (all_present-nil xs rest) refl

-- A nil announcement in the update of a peer is a panic.
pub receive_update-panics :
    (upd : UpdateData) (c : Cluster) (files : List FileAnnouncement)
    (rest : List (Option FileAnnouncement)) (node : NodeInfo)
    → upd.files ≡ map some files ++ none ∷ rest
    → lookup upd.sender_node_name c.peers ≡ some node
    → receive_update upd c ≡ panics
unfolding receive_update apply_update
receive_update-panics upd c files rest node e k =
    rw (k, receive_update, e, all_present-nil files rest) refl
