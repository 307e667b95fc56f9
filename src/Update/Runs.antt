-- ===== src/Update/Runs.antt =====
-- Sequences of updates: what they leave, which order does not matter, and what a deletion does.

use mathlib.Core.List.{Perm}
use dftp.Base.{
  false, ◌<ℤ◌, true, List, [], ◌∷◌, ◌++◌, some, Text, path_eq, text_eq, ◌≡◌, refl, arith, All,
  All-append_left, All-append_right, ap, ◌∙◌, sym, Outcome, returns, ◌>>=◌,
}
use dftp.Base.Perms.{AllPairs}
use dftp.Fat.{FileStat, TreeNode, is_deleted}
use dftp.Fat.Paths.{stat_at}
use dftp.Update.{FileAnnouncement, parts, apply_stat, update, ensure_init}
use dftp.Update.Target.{target, effect-hit, effect-miss, take_in, take_in-append, StopsAt}
use dftp.Update.Stats.{IsFresh, ready_files, update_correct}
use dftp.Update.Merge.{Differ, take_in-perm}
use dftp.Update.Newest.{IsNewest, take_in-IsNewest}

-- One call of `Update` after another.
unfoldable pub update_all : TreeNode → List (List FileAnnouncement) → Outcome TreeNode
update_all n [] = returns n
update_all n (files ∷ batches) = update n files >>= λ n'. update_all n' batches

abbrev pub all_ready : List (List FileAnnouncement) → List FileAnnouncement
all_ready [] = []
all_ready (files ∷ batches) = ready_files files ++ all_ready batches

-- Any sequence of updates leaves at a path what taking in all their announcements leaves.
pub update_all_correct :
    (n : TreeNode) (batches : List (List FileAnnouncement)) (x : Text) (q : List Text)
    → All (All IsFresh) batches
    → All (StopsAt (x ∷ q)) (all_ready batches)
    → (n' : TreeNode) × (update_all n batches ≡ returns n')
      × (stat_at n' (x ∷ q) ≡ take_in (x ∷ q) (stat_at n (x ∷ q)) (all_ready batches))
unfolding update_all take_in
update_all_correct n [] x q fresh stops = (n, refl, refl)
update_all_correct n (files ∷ batches) x q (f, fresh) stops =
    let first = All-append_left (StopsAt (x ∷ q)) (ready_files files) (all_ready batches) stops in
    let rest = All-append_right (StopsAt (x ∷ q)) (ready_files files) (all_ready batches) stops in
    let (n1, p1, t1) = update_correct n files f in
    let (n2, p2, t2) = update_all_correct n1 batches x q fresh rest in
    (
      n2,
      rw p1 p2,
      t2
          ∙ ap (λ o. take_in (x ∷ q) o (all_ready batches)) (t1 x q first)
          ∙ sym
              (take_in-append (x ∷ q) (stat_at n (x ∷ q)) (ready_files files) (all_ready batches)),
    )

-- Both sequences of updates return, and the trees agree at the path.
abbrev pub Converges :
    TreeNode
    → TreeNode
    → List (List FileAnnouncement)
    → List (List FileAnnouncement)
    → Text
    → List Text
    → Type 0
Converges n m us vs x q =
    (n' : TreeNode) × (m' : TreeNode) × (update_all n us ≡ returns n')
    × (update_all m vs ≡ returns m')
    × (stat_at n' (x ∷ q) ≡ stat_at m' (x ∷ q))

-- Two nodes that agree at a path, and receive the same announcements in any order and any batches,
-- agree there afterwards, if those for the path are for files and have different times, nothing is
-- announced below the path, and no announcement has an empty slice of parts set beforehand.
pub converge :
    (n m : TreeNode) (us vs : List (List FileAnnouncement)) (x : Text) (q : List Text)
    → stat_at n (x ∷ q) ≡ stat_at m (x ∷ q)
    → All (All IsFresh) us
    → All (All IsFresh) vs
    → All (StopsAt (x ∷ q)) (all_ready us)
    → All (StopsAt (x ∷ q)) (all_ready vs)
    → AllPairs (Differ (x ∷ q)) (all_ready us)
    → Perm (all_ready us) (all_ready vs)
    → Converges n m us vs x q
converge n m us vs x q same fu fv su sv d p =
    let (n', e, t) = update_all_correct n us x q fu su in
    let (m', e', t') = update_all_correct m vs x q fv sv in
    (
      n',
      m',
      e,
      e',
      t
          ∙ take_in-perm (x ∷ q) (stat_at n (x ∷ q)) (all_ready us) (all_ready vs) d p
          ∙ ap (λ o. take_in (x ∷ q) o (all_ready vs)) same
          ∙ sym t',
    )

-- `Update` returns, and leaves the newest stat at the path.
abbrev pub KeepsNewest : TreeNode → List FileAnnouncement → Text → List Text → FileStat → Type 0
KeepsNewest n files x q s0 =
    (n' : TreeNode) × (s : FileStat) × (update n files ≡ returns n')
    × (stat_at n' (x ∷ q) ≡ some s)
    × IsNewest (x ∷ q) (some s0) (ready_files files) s

-- After an update without deletions that announces nothing below a path that was there, and has no
-- announcement with an empty slice of parts set beforehand, the stat at the path is the newest of what was there and what
-- was announced for the path.
pub update-IsNewest :
    (n : TreeNode) (files : List FileAnnouncement) (x : Text) (q : List Text) {s0 : FileStat}
    → All IsFresh files
    → All (λ fa. fa.deletion ≡ false) files
    → All (StopsAt (x ∷ q)) (ready_files files)
    → stat_at n (x ∷ q) ≡ some s0
    → KeepsNewest n files x q s0
update-IsNewest n files x q {s0} fresh kept stops h =
    let (n', e, t) = update_correct n files fresh in
    let (s, e', i) = take_in-IsNewest (x ∷ q) s0 (ready_files files) in
    (n', s, e, rw (t x q stops, h) e', i)

deletion-target :
    (fa : FileAnnouncement) (x y : Text) (r : List Text)
    → fa.deletion ≡ true
    → parts (ensure_init fa) ≡ x ∷ y ∷ r
    → target (ensure_init fa) ≡ x ∷ []
unfolding ensure_init
deletion-target fa x y r d p = ground arith

deletion-stat :
    (old : FileStat) (fa : FileAnnouncement)
    → fa.deletion ≡ true
    → old.last_info_updated <ℤ fa.stat.last_info_updated
    → (is_deleted (apply_stat old (ensure_init fa)) ≡ true)
      × ((apply_stat old (ensure_init fa)).dir ≡ fa.stat.dir)
unfolding apply_stat ensure_init
deletion-stat old fa d newer = ground arith

-- `Update` returns a tree whose node `x` is marked as deleted, and where `x/y/r` is as it was.
abbrev pub DeletionMisses : TreeNode → FileAnnouncement → Text → Text → List Text → Type 0
DeletionMisses n fa x y r =
    (n' : TreeNode) × (s : FileStat) × (update n (fa ∷ []) ≡ returns n')
    × (stat_at n' (x ∷ []) ≡ some s)
    × (is_deleted s ≡ true)
    × (s.dir ≡ fa.stat.dir)
    × (stat_at n' (x ∷ y ∷ r) ≡ stat_at n (x ∷ y ∷ r))

-- A newer announcement that a file of two or more names was deleted, if the node of its first name is
-- there and its slice of parts was not set to an empty one, marks the node of its first
-- name as deleted, and leaves the file's own node as it was.
pub deletion_misses :
    (n : TreeNode) (fa : FileAnnouncement) (x y : Text) (r : List Text) {dir_stat : FileStat}
    → fa.deletion ≡ true
    → parts (ensure_init fa) ≡ x ∷ y ∷ r
    → IsFresh fa
    → stat_at n (x ∷ []) ≡ some dir_stat
    → dir_stat.last_info_updated <ℤ fa.stat.last_info_updated
    → DeletionMisses n fa x y r
unfolding take_in
deletion_misses n fa x y r {dir_stat} d p fresh h newer =
    let (n', e, t) = update_correct n (fa ∷ []) (fresh, tt) in
    let hit = deletion-target fa x y r d p in
    let (gone, same_dir) = deletion-stat dir_stat fa d newer in
    let stop : StopsAt (x ∷ []) (ensure_init fa) = λ name rest e'. cc in
    let stop_below : StopsAt (x ∷ y ∷ r) (ensure_init fa) = λ name rest e'. cc in
    (
      n',
      apply_stat dir_stat (ensure_init fa),
      e,
      t x [] (stop, tt)
          ∙ ap (λ o. take_in (x ∷ []) o (ensure_init fa ∷ [])) h
          ∙ effect-hit (x ∷ []) (some dir_stat) (ensure_init fa) hit,
      gone,
      same_dir,
      t x (y ∷ r) (stop_below, tt)
          ∙ effect-miss (x ∷ y ∷ r) (stat_at n (x ∷ y ∷ r)) (ensure_init fa) (λ e'. cc),
    )
