-- ===== src/Main/Serves.antt =====
-- When the program goes on to serve.

use dftp.Base.{
  ℤ, true, List, [], Option, none, some, Text, codes, text_eq, Outcome, returns, ◌≡◌, ◌≢◌, refl,
  ==_ne, ==_refl, ◌⊎◌, inl, inr, ◌↔◌, Option-cases, Bool-cases, ap, arith,
}
use dftp.Fat.{TreeNode}
use dftp.LocalFs.{LocalFs, Visit}
use dftp.Mgmt.Discovery.{start_multicast_discovery}
use dftp.Ftp.Server.{serve_ftp}
use dftp.Ftp.Address.{IsListenAddress, serve_ftp_lem}
use dftp.Main.{Options, Start, fatal, runs, main, program, node_name}
use dftp.Main.Servers.{
  Sockets, discovery_end, http_goes_on, Serving, ftp_end, start_ftp, start_discovery, serve,
  serve_main,
}
use dftp.Main.Given.{both-some, given_lem, ftp_goes_on, stopped, both_true, true_both, http_lem}
use dftp.Main.Starts.{first_scan, launch_lem}

-- The program of the options, or the fatal end of their checks.
abbrev MainCases : Option Text → Options → Outcome Start → Type 0
MainCases hostname o r =
    ((message : Text) × (r ≡ returns (fatal message))
      × ((name : Text) → node_name hostname o ≡ some name → o.dfs_root ≡ []))
    ⊎ ((name : Text) × (node_name hostname o ≡ some name)
        × (o.dfs_root ≢ [])
        × (q : LocalFs × TreeNode) × (now : ℤ) × (r ≡ returns (runs (program o q now))))

main_cases :
    (hostname : Option Text) (o : Options) (scan_t : ℤ) (visits : List Visit) (now : ℤ)
    → MainCases hostname o (main hostname o scan_t visits now)
unfolding main
main_cases hostname o scan_t visits now = elim (Option-cases (node_name hostname o)) [
  | inl unknown ↦ inl (codes "node name not known", rw (unknown, main) refl, λ name e. cc)
  | inr (name, known) ↦ elim (text_eq.dec o.dfs_root []) [
    | yes empty ↦
        inl (codes "specify --dfsroot", rw (known, main, empty, ==_refl) refl, λ name' e. empty)
    | no ne ↦
        let (root, e, named, tree) = launch_lem name o scan_t visits now in
        inr (
          name,
          known,
          ne,
          (first_scan name o scan_t visits, root),
          now,
          rw (known, main, ==_ne o.dfs_root [] ne) e,
        )
  ]
]

module _ {A : Type 0} (sockets : Sockets A) where
  ftp_lem :
      (addr : Text)
      → ((port : Option ℤ) × (start_ftp sockets addr ≡ some port))
        ↔ ((n : ℤ) × IsListenAddress addr n × (sockets.ftp_listens n ≡ true))
  ftp_lem addr = (
    λ (port, h).
        let (n, e) = ftp_goes_on (serve_ftp sockets.ftp_listens addr) h in
        let (a, l) = (serve_ftp_lem sockets.ftp_listens addr n).0 e in (n, a, l),
    λ (n, a, l). (some n, ap ftp_end ((serve_ftp_lem sockets.ftp_listens addr n).1 (a, l))),
  )

  discovery_starts :
      (addr : Text) (r : Option A)
      → sockets.resolve addr ≡ r
      → (at : Option A) → start_discovery sockets addr ≡ some at
      → (a : A) × (sockets.resolve addr ≡ some a)
        × (sockets.listens_at a ≡ true)
        × (sockets.dials a ≡ true)
  unfolding start_multicast_discovery
  discovery_starts addr none e at h = absurd (ground (arith, e))
  discovery_starts addr (some a) e at h = elim (Bool-cases (sockets.listens_at a)) [
    | inr f ↦ absurd (ground (arith, e, f))
    | inl t ↦ elim (Bool-cases (sockets.dials a)) [
      | inl d ↦ (a, e, t, d)
      | inr f ↦ absurd (ground (arith, e, t, f))
    ]
  ]

  discovery_lem :
      (addr : Text)
      → ((at : Option A) × (start_discovery sockets addr ≡ some at)) ↔ (
          (a : A) × (sockets.resolve addr ≡ some a)
          × (sockets.listens_at a ≡ true)
          × (sockets.dials a ≡ true))
  unfolding start_multicast_discovery
  discovery_lem addr = (
    λ (at, h). discovery_starts addr _ refl at h,
    λ (a, e, t, d). (some a, rw (e, start_multicast_discovery, t, discovery_end, d) refl),
  )

  -- What the starts of the servers need.
  pub record Starts (o : Options) : Type 0 where
    pub discovery :
        (o.multicast_addr ≡ [])
        ⊎ ((a : A) × (sockets.resolve o.multicast_addr ≡ some a)
            × (sockets.listens_at a ≡ true)
            × (sockets.dials a ≡ true))
    pub ftp :
        (o.ftp_addr ≡ [])
        ⊎ ((n : ℤ) × IsListenAddress o.ftp_addr n × (sockets.ftp_listens n ≡ true))
    pub mgmt : sockets.http_listens o.http_mgmt_addr ≡ true
    pub http : (o.http_addr ≡ []) ⊎ (sockets.http_listens o.http_addr ≡ true)

  serves-Starts :
      (o : Options) (q : LocalFs × TreeNode) (now : ℤ) {s : Serving A}
      → serve sockets (runs (program o q now)) ≡ some s
      → Starts o
  unfolding serve
  serves-Starts o q now e =
      let d =
        given_lem (start_discovery sockets) o.multicast_addr (discovery_lem o.multicast_addr) in
      let f = given_lem (start_ftp sockets) o.ftp_addr (ftp_lem o.ftp_addr) in
      elim (Bool-cases (http_goes_on sockets (program o q now))) [
        | inr f ↦ absurd (stopped (rw f at e))
        | inl goes ↦
            let (m, h) = both_true _ _ goes in
            let (x, y) = both-some (program o q now) _ _ (rw goes at e) in
            record {
              discovery = d.0 x;
              ftp = f.0 y;
              mgmt = m;
              http = (http_lem sockets.http_listens o.http_addr).0 h;
            }
      ]

  Starts-serves :
      (o : Options) (q : LocalFs × TreeNode) (now : ℤ)
      → Starts o
      → (s : Serving A) × (serve sockets (runs (program o q now)) ≡ some s)
  unfolding serve
  Starts-serves o q now h =
      let (at, e) =
        (given_lem (start_discovery sockets) o.multicast_addr (discovery_lem o.multicast_addr)).1
          h.discovery in
      let (port, e') = (given_lem (start_ftp sockets) o.ftp_addr (ftp_lem o.ftp_addr)).1 h.ftp in
      let goes : http_goes_on sockets (program o q now) ≡ true =
        true_both h.mgmt ((http_lem sockets.http_listens o.http_addr).1 h.http) in
      (
        record { program = program o q now; discovery = at; ftp_port = port },
        rw (goes, e, serve, e') refl,
      )

  never_serves :
      (s : Serving A) → ◌≡◌ {A = Outcome (Option (Serving A))} (returns none) (returns (some s)) → ⊥
  never_serves s e = cc

  some_served :
      (o p : Option (Serving A))
      → ◌≡◌ {A = Outcome (Option (Serving A))} (returns o) (returns p)
      → o ≡ p
  some_served o p e = cc

  -- What the program needs to go on: a name, a local root, and servers that start.
  pub record CanServe (hostname : Option Text) (o : Options) : Type 0 where
    pub name : Text
    pub known : node_name hostname o ≡ some name
    pub rooted : o.dfs_root ≢ []
    pub starts : Starts o

  -- `main` goes on to serve, and none of the starts ends the program, exactly if there is a hostname or a
  -- name in the options, there is a local root, the discovery address is empty or is resolved and can be
  -- listened and dialled at, the FTP address is empty or has the form host:port with a number for a port
  -- that the FTP library listens at, the management address can be listened at, and the public HTTP
  -- address is empty or can be listened at.
  pub serve_main_lem :
      (hostname : Option Text) (o : Options) (scan_t : ℤ) (visits : List Visit) (now : ℤ)
      → ((s : Serving A) × (serve_main sockets hostname o scan_t visits now ≡ returns (some s)))
        ↔ CanServe hostname o
  unfolding serve_main
  serve_main_lem hostname o scan_t visits now = elim (main_cases hostname o scan_t visits now) [
    | inl (message, e, refused) ↦ (
      λ (s, h). absurd (never_serves s (rw e at h)),
      λ c. absurd (c.rooted (refused c.name c.known)),
    )
    | inr (name, known, ne, q, t, e) ↦ (
      λ (s, h). record {
        name = name;
        known = known;
        rooted = ne;
        starts = serves-Starts o q t (some_served _ _ (rw e at h));
      },
      λ c. let (s, h) = Starts-serves o q t c.starts in (s, rw (e, h) refl),
    )
  ]
