-- ===== src/Main/Launches.antt =====
-- What `main` starts a node with.
use dftp.Base.{
  ℤ, List, [], Option, some, Text, text_eq, All, Outcome, returns, ◌≡◌, refl, inl, inr,
  Option-cases, codes, subst, ap, ◌∙◌, sym, ==_ne, ==_refl,
}
use dftp.Base.Assoc.{lookup}
use dftp.Fat.{new_root_node}
use dftp.Update.{update}
use dftp.Update.Stats.{IsFresh}
use dftp.LocalFs.{LocalFs, new_local_fs, Visit, scan_loop, scan_once}
use dftp.LocalFs.Scan.{scanned, scan_loop-IsFresh}
use dftp.Cluster.{Cluster, new_cluster}
use dftp.Exchange.Receive.{>>=-eq-returns}
use dftp.Node.Named.{IsNamed}
use dftp.Main.{Options, Program, node_name, program, Start, fatal, runs, launch, main}

pub returns-injective : {A : Type 0} (a b : A) → ◌≡◌ {A = Outcome A} (returns a) (returns b) → a ≡ b
returns-injective a b e = cc

fatal-ne-runs :
    {t : Text} {p : Program} → ◌≡◌ {A = Outcome Start} (returns (fatal t)) (returns (runs p)) → ⊥
fatal-ne-runs e = cc

-- The tree is what the update of the first scan leaves, and the names of the peers are in order.
abbrev pub HasScanned : Cluster → Type 0
HasScanned c =
    (update new_root_node c.local_fs.last_full_scan ≡ returns c.dfs_root)
    × All IsFresh c.local_fs.last_full_scan
    × IsNamed c.me c.local_fs c
    × (c.me.name ≡ c.local_fs.my_node_name)

-- The directory and the tree are what a scan of the directory leaves.
abbrev pub Scanned : LocalFs → ℤ → List Visit → Cluster → Type 0
Scanned fs scan_t visits c =
    (scan_once fs new_root_node scan_t visits ≡ returns (scanned fs scan_t visits, c.dfs_root))
    × (c.local_fs ≡ scanned fs scan_t visits)

same_program : (p q : Program) → returns (runs p) ≡ returns (runs q) → p ≡ q
same_program p q e = cc

module _ (o : Options) (scan_t : ℤ) (visits : List Visit) (now : ℤ) (p : Program) where
  launch-HasScanned :
      (name : Text) → launch name o scan_t visits now ≡ returns (runs p) → HasScanned p.cluster
  unfolding launch scan_once new_cluster lookup
  launch-HasScanned name e =
      let fs = new_local_fs o.dfs_root o.dfs_mount_point name in
      let (kept, e', e'') = >>=-eq-returns (scan_once fs new_root_node scan_t visits) _ e in
      let (root, u, same) =
        >>=-eq-returns (update new_root_node (scan_loop fs scan_t [] visits)) _ e' in
      let q : program o (scanned fs scan_t visits, root) now ≡ p = cc in
      subst (λ z. HasScanned z.cluster) q
        (
          u,
          scan_loop-IsFresh fs scan_t [] visits tt,
          record { same_me = refl; same_fs = refl; not_me = refl; names = λ k node e. cc },
          refl,
        )

  launch-Scanned :
      (name : Text)
      → launch name o scan_t visits now ≡ returns (runs p)
      → Scanned (new_local_fs o.dfs_root o.dfs_mount_point name) scan_t visits p.cluster
  unfolding launch scan_once new_cluster
  launch-Scanned name e =
      let fs = new_local_fs o.dfs_root o.dfs_mount_point name in
      let (kept, e', e'') = >>=-eq-returns (scan_once fs new_root_node scan_t visits) _ e in
      let (root, u, same) =
        >>=-eq-returns (update new_root_node (scan_loop fs scan_t [] visits)) _ e' in
      let q : program o (scanned fs scan_t visits, root) now ≡ p = cc in
      subst (λ z. Scanned fs scan_t visits z.cluster) q (e' ∙ sym same, refl)

  -- A start that is not fatal is a launch under the node's name.
  main-launch :
      (hostname : Option Text)
      → main hostname o scan_t visits now ≡ returns (runs p)
      → (name : Text) × (node_name hostname o ≡ some name)
        × (launch name o scan_t visits now ≡ returns (runs p))
  unfolding main
  main-launch hostname e = elim (Option-cases (node_name hostname o)) [
    | inl unknown ↦
        let e' : returns (fatal (codes "node name not known")) ≡ returns (runs p) =
          rw (unknown, main) at e in
        absurd (fatal-ne-runs e')
    | inr (name, known) ↦ elim (text_eq.dec o.dfs_root []) [
      | yes empty ↦
          let e' : returns (fatal (codes "specify --dfsroot")) ≡ returns (runs p) =
            rw (known, main, empty, ==_refl) at e in
          absurd (fatal-ne-runs e')
      | no ne ↦ (name, known, rw (known, main, ==_ne o.dfs_root [] ne) at e)
    ]
  ]

  pub main-Scanned :
      (hostname : Option Text) (name : Text)
      → node_name hostname o ≡ some name
      → main hostname o scan_t visits now ≡ returns (runs p)
      → Scanned (new_local_fs o.dfs_root o.dfs_mount_point name) scan_t visits p.cluster
  main-Scanned hostname name known e =
      let (n, known', e') = main-launch hostname e in
      let same : n ≡ name = cc in
      launch-Scanned name (subst (λ z. launch z o scan_t visits now ≡ returns (runs p)) same e')

  pub main-HasScanned :
      (hostname : Option Text)
      → main hostname o scan_t visits now ≡ returns (runs p)
      → HasScanned p.cluster
  main-HasScanned hostname e =
      let (name, known, e') = main-launch hostname e in launch-HasScanned name e'

  -- It starts with no peers and with nothing to run.
  pub main-alone :
      (hostname : Option Text)
      → main hostname o scan_t visits now ≡ returns (runs p)
      → (p.cluster.peers ≡ []) × (p.cluster.tasks ≡ [])
  unfolding launch new_cluster
  main-alone hostname e =
      let (name, known, e') = main-launch hostname e in
      let fs = new_local_fs o.dfs_root o.dfs_mount_point name in
      let (kept, e1, e2) = >>=-eq-returns (scan_once fs new_root_node scan_t visits) _ e' in
      let q : program o kept now ≡ p = same_program (program o kept now) p e2 in
      (ap (λ (z : Program). z.cluster.peers) (sym q), ap (λ (z : Program). z.cluster.tasks) (sym q))
