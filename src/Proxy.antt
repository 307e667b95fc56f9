-- ===== src/Proxy.antt =====
-- src/dftp/cluster/proxy.go: reading a file where it is, on this node or through a peer. What os.Open
-- finds under a name and what a peer answers to an HTTP request are arguments.
pub mod Redirects
pub mod Cache
use dftp.Base.{
  ℕ, zero, suc, ◌+◌, ◌-◌, ℤ, pos, negsuc, ltb_ℤ, Bool, true, false, not, ◌&&◌, Option, none, some,
  Text, ◌==◌, text_eq, if◌then◌else◌, ◌≡◌, refl,
}
use dftp.Base.Assoc.{lookup}
use dftp.Fat.{TreeNodeReadonly}
use dftp.LocalFs.{OpenResult, local_file_not_found, opens, local_open_read}
use dftp.Cluster.{Cluster, NodeInfo}

pub data ReadError : Type 0 where
  local_not_found : ReadError
  cannot_open : ReadError
  too_many_redirects : ReadError
  unknown_node : ReadError
  no_answer : ReadError
  proxy_error : ℕ → ReadError

-- What `OpenRead` returns: the bytes that its reader gives, or an error.
pub data ReadResult : Type 0 where
  contents : Text → ReadResult
  failed : ReadError → ReadResult

-- The request http://<public_addr>/fs/<path>?redirN=<redir_n>
pub record RemoteRequest : Type 0 where
  pub public_addr : Text
  pub path : Text
  pub redir_n : ℤ

pub data HttpAnswer : Type 0 where
  unreachable : HttpAnswer
  status : ℕ → Text → HttpAnswer

-- `MaxRedirectDepth`
abbrev pub max_redirect_depth : ℤ
max_redirect_depth = pos 2

-- n + 1. A counter that is incremented is below 2, so Go's int does not overflow.
abbrev pub increment : ℤ → ℤ
increment (pos n) = pos (n + 1)
increment (negsuc zero) = pos 0
increment (negsuc (suc n)) = negsuc n

abbrev pub is_ok_status : ℕ → Bool
is_ok_status code = not (ltb_ℤ (pos code) (pos 200)) && not (ltb_ℤ (pos 200) (pos code))

abbrev pub read_answer : HttpAnswer → ReadResult
read_answer unreachable = failed no_answer
read_answer (status code body) =
    if is_ok_status code then contents body else failed (proxy_error code)

abbrev pub read_local : (Text → Option Text) → OpenResult → ReadResult
read_local disk local_file_not_found = failed local_not_found
read_local disk (opens name) = elim (disk name) [
  | none ↦ failed cannot_open
  | some body ↦ contents body
]

module _ (disk : Text → Option Text) (get : RemoteRequest → HttpAnswer) (c : Cluster) where
  -- The part of `OpenRead` for a file that another node owns.
  unfoldable pub read_remote : Text → Text → ℤ → ReadResult
  unfolding lookup
  read_remote wanted owner n_redirects =
      if not (ltb_ℤ n_redirects max_redirect_depth)
      then failed too_many_redirects
      else elim (lookup owner c.peers) [
        | none ↦ failed unknown_node
        | some node ↦ read_answer (
            get (record {
              public_addr = node.public_addr;
              path = wanted;
              redir_n = increment n_redirects;
            }))
      ]

  -- `Proxy.OpenRead`
  unfoldable pub open_read : Text → TreeNodeReadonly → ℤ → ReadResult
  unfolding read_remote local_open_read
  open_read wanted entry n_redirects =
      if entry.stat.owner_node == c.local_fs.my_node_name
      then read_local disk (local_open_read c.local_fs wanted)
      else read_remote wanted entry.stat.owner_node n_redirects
