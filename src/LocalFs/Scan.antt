-- ===== src/LocalFs/Scan.antt =====
-- What a scan puts into the tree.
use dftp.Base.{if-holds, ℤ, List, [], ◌∷◌, text_eq, All, All-append, returns, ◌≡◌, refl}
use dftp.Fat.{TreeNode}
use dftp.Update.{FileAnnouncement}
use dftp.Update.Entries.{TakesIn}
use dftp.Update.Stats.{IsFresh, ready_files, update_correct}
use dftp.LocalFs.{LocalFs, Visit, scan_visit, scan_loop, scan_once}

scan_visit-IsFresh :
    (s : LocalFs) (scan_t : ℤ) (files : List FileAnnouncement) (v : Visit)
    → All IsFresh files
    → All IsFresh (scan_visit s scan_t files v)
unfolding scan_visit
scan_visit-IsFresh s scan_t files v h =
    if-holds (All IsFresh) v.failed files _ h
      (if-holds (All IsFresh) _ _ files (All-append IsFresh files _ h (λ e. cc, tt)) h)

pub scan_loop-IsFresh :
    (s : LocalFs) (scan_t : ℤ) (files : List FileAnnouncement) (visits : List Visit)
    → All IsFresh files
    → All IsFresh (scan_loop s scan_t files visits)
unfolding scan_loop
scan_loop-IsFresh s scan_t files [] h = h
scan_loop-IsFresh s scan_t files (v ∷ visits) h =
    scan_loop-IsFresh s scan_t (scan_visit s scan_t files v) visits
      (scan_visit-IsFresh s scan_t files v h)

-- The directory once its scan is kept.
abbrev pub scanned : LocalFs → ℤ → List Visit → LocalFs
scanned s scan_t visits = record s {
  last_full_scan = scan_loop s scan_t [] visits;
  last_full_scan_time = scan_t;
}

-- A scan comes to an end without a panic, keeps the announcements of what it has visited, and the
-- tree has taken these announcements in.
pub scan_once_lem :
    (s : LocalFs) (root : TreeNode) (scan_t : ℤ) (visits : List Visit)
    → (root' : TreeNode) × (scan_once s root scan_t visits
        ≡ returns (scanned s scan_t visits, root'))
      × TakesIn root root' (ready_files (scan_loop s scan_t [] visits))
unfolding scan_once
scan_once_lem s root scan_t visits =
    let files = scan_loop s scan_t [] visits in
    let (root', e, t) = update_correct root files (scan_loop-IsFresh s scan_t [] visits tt) in
    (root', rw e refl, t)
