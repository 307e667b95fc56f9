-- ===== src/Ftp/Server.antt =====
-- src/dftp/ftpface/server.go: the start of the FTP server, its users and its drivers. What the server
-- library gets of it are the port, the password check and a driver for each connection.
use dftp.Base.{
  if◌then◌else◌, ℤ, Bool, true, List, [], ◌∷◌, Option, none, some, Text, codes, byte_eq, ◌≡◌, refl,
}
use dftp.Strings.{split}
use dftp.Strings.Number.{atoi}
use dftp.Fat.{TreeNode}
use dftp.Cluster.{Cluster}

-- `Server` and `Driver`, whose `DfsRoot` is the node's tree.
pub record Server : Type 0 where
  pub cluster : Cluster

abbrev pub dfs_root : Server → TreeNode
dfs_root s = s.cluster.dfs_root

pub record Driver : Type 0 where
  pub server : Server

-- `Server.NewDriver`, which has no error
abbrev pub new_driver : Server → Driver
new_driver s = record { server = s }

-- `Driver.Init`
abbrev pub init : Driver → Driver
init d = d

-- `Auth.CheckPasswd`, which has no error
abbrev pub check_passwd : Text → Text → Bool
check_passwd login pass = true

-- The options of goftp.NewServer that `ServeFtp` sets to other than itself, or its fatal end.
pub data ServeFtp : Type 0 where
  invalid_address : ServeFtp
  invalid_port : ServeFtp
  cannot_listen : ServeFtp
  listens : ℤ → ServeFtp

-- `library` is whether the library's ListenAndServe goes on to listen when it is given the port; it reads
-- 0 as a port of its own choice.
abbrev pub parsed_port : (ℤ → Bool) → Option ℤ → ServeFtp
parsed_port library none = invalid_port
parsed_port library (some port) = if library port then listens port else cannot_listen

-- The parts of the listen address.
abbrev pub serve_parts : (ℤ → Bool) → List Text → ServeFtp
serve_parts library (host ∷ port ∷ []) = parsed_port library (atoi port)
serve_parts library _ = invalid_address

-- `ServeFtp`
unfoldable pub serve_ftp : (ℤ → Bool) → Text → ServeFtp
unfolding split atoi
serve_ftp library addr = serve_parts library (split addr b':')

abbrev all_ports : ℤ → Bool
all_ports port = true

serve_ftp_tests :
    (serve_ftp all_ports (codes "127.0.0.1:2121") ≡ serve_ftp all_ports (codes ":2121"))
    × (serve_ftp all_ports (codes "2121") ≡ invalid_address)
    × (serve_ftp all_ports (codes "::1:2121") ≡ invalid_address)
    × (serve_ftp all_ports (codes "h:ftp") ≡ invalid_port)
unfolding serve_ftp byte_eq
serve_ftp_tests = (refl, refl, refl, refl)
