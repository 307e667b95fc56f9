-- ===== src/Main/Servers.antt =====
-- src/dftp/main.go: the flags' defaults, and the program with the starts of its servers.

use dftp.Base.{
  true, ◌&&◌, if◌then◌else◌, ℤ, Bool, List, [], Option, none, some, Text, codes, text_eq, Outcome,
  returns, ◌>>=◌,
}
use dftp.LocalFs.{Visit}
use dftp.Mgmt.Discovery.{Discovery, unresolved, no_listener, loops, start_multicast_discovery}
use dftp.Ftp.Server.{ServeFtp, listens, serve_ftp}
use dftp.Main.{Options, Program, Start, fatal, runs, main}

-- The flags, when none is given.
abbrev pub default_options : Options
default_options = record {
  dfs_root = [];
  dfs_mount_point = [];
  my_node_name = [];
  http_addr = codes ":7040";
  ftp_addr = codes ":2121";
  multicast_addr = codes "224.0.0.9:7041";
  cluster_name = codes "dftp";
  http_mgmt_addr = codes ":7041";
}

-- What runs while `main` sleeps: the node, where it listens for pings, and the port of its FTP server.
pub record Serving (A : Type 0) : Type 0 where
  pub program : Program
  pub discovery : Option A
  pub ftp_port : Option ℤ

-- What becomes of the program's calls for sockets: the address that ResolveUDPAddr makes of the discovery
-- address, whether ListenMulticastUDP and DialUDP succeed there, and which addresses ListenAndServe of
-- net/http, and which ports that of the FTP library, goes on to listen at.
pub record Sockets (A : Type 0) : Type 0 where
  pub resolve : Text → Option A
  pub listens_at : A → Bool
  pub dials : A → Bool
  pub http_listens : Text → Bool
  pub ftp_listens : ℤ → Bool

abbrev pub ftp_end : ServeFtp → Option (Option ℤ)
ftp_end (listens port) = some (some port)
ftp_end _ = none

-- A server that is started only if its address is not empty.
abbrev pub if_given : {B : Type 0} → (Text → Option (Option B)) → Option Text → Option (Option B)
if_given start none = some none
if_given start (some addr) = start addr

abbrev pub both :
    {A : Type 0} → Program → Option (Option A) → Option (Option ℤ) → Option (Serving A)
both p none port = none
both p (some at) none = none
both p (some at) (some port) = some (record { program = p; discovery = at; ftp_port = port })

-- A server that is not started does not end the program.
abbrev pub http_given : (Text → Bool) → Option Text → Bool
http_given listens_http none = true
http_given listens_http (some addr) = listens_http addr

module _ {A : Type 0} (sockets : Sockets A) where
  -- A start that goes on, or that is the end of the program.
  abbrev pub discovery_end : Discovery A → Option (Option A)
  discovery_end unresolved = none
  discovery_end no_listener = none
  discovery_end (loops a) = if sockets.dials a then some (some a) else none

  abbrev pub start_discovery : Text → Option (Option A)
  start_discovery addr =
      discovery_end (start_multicast_discovery sockets.resolve sockets.listens_at addr)

  abbrev pub start_ftp : Text → Option (Option ℤ)
  start_ftp addr = ftp_end (serve_ftp sockets.ftp_listens addr)

  -- `Cluster.ServeHttp`, and `Server.ServeHttp` if it is started, go on.
  abbrev pub http_goes_on : Program → Bool
  http_goes_on p =
      sockets.http_listens p.mgmt_server && http_given sockets.http_listens p.http_server

  -- The starts of the discovery, in `New`, of the HTTP servers and of the FTP server.
  unfoldable pub serve : Start → Option (Serving A)
  unfolding start_multicast_discovery serve_ftp
  serve (fatal message) = none
  serve (runs p) =
      if http_goes_on p
      then both p (if_given start_discovery p.discovery) (if_given start_ftp p.ftp_server)
      else none

  -- `main` with its servers: what it runs, or nothing after a fatal end.
  unfoldable pub serve_main :
      Option Text → Options → ℤ → List Visit → ℤ → Outcome (Option (Serving A))
  unfolding main serve
  serve_main hostname o scan_t visits now =
      main hostname o scan_t visits now >>= λ s. returns (serve s)
