-- ===== src/Proxy/Redirects.antt =====
-- How far a read is passed on: each request that a node makes counts one redirect more, and at the
-- limit it makes none. So the requests of a read across any nodes come to an end.
use dftp.Base.{
  ℕ, zero, suc, ℤ, pos, negsuc, ltb_ℤ, ◌≤ℤ◌, true, Option, none, some, Text, ◌==◌, text_eq,
  if◌then◌else◌, ◌≡◌, Bool, not, ◌||◌, ◌&&◌, List, ◌∷◌, All, byte_eq, refl, arith, ap, [],
  Bool-cases, Option-cases, inl, inr,
}
use dftp.Base.Assoc.{lookup}
use dftp.Strings.{join, slash}
use dftp.FilePath.Elements.{IsElement}
use dftp.Fat.{TreeNodeReadonly, is_dir, get_readonly}
use dftp.Fat.Paths.{node_at, names_of}
use dftp.LocalFs.{local_open_read}
use dftp.Cluster.{Cluster}
use dftp.Proxy.{
  RemoteRequest, HttpAnswer, unreachable, status, ReadResult, contents, failed, read_local,
  max_redirect_depth, increment, read_remote, open_read,
}

-- The peers answer alike to requests for the path with a redirect count that is one more than `n`, and
-- at most the limit.
abbrev pub SameAnswers :
    ℤ → Text → (RemoteRequest → HttpAnswer) → (RemoteRequest → HttpAnswer) → Type 0
SameAnswers n path get get' =
    (r : RemoteRequest)
    → r.path ≡ path
    → r.redir_n ≡ increment n
    → r.redir_n ≤ℤ max_redirect_depth
    → get r ≡ get' r

increment-le : (n : ℤ) → ltb_ℤ n max_redirect_depth ≡ true → increment n ≤ℤ max_redirect_depth
increment-le (pos n) h = ground arith
increment-le (negsuc zero) h = omega arith
increment-le (negsuc (suc n)) h = omega arith

module _ (disk : Text → Option Text) (get get' : RemoteRequest → HttpAnswer) (c : Cluster)
    (path : Text) (n : ℤ) (same : SameAnswers n path get get') where
  read_remote-requests :
      (owner : Text) → read_remote disk get c path owner n ≡ read_remote disk get' c path owner n
  unfolding read_remote
  read_remote-requests owner = elim (Bool-cases (ltb_ℤ n max_redirect_depth)) [
    | inr f ↦ ground arith
    | inl t ↦ elim (Option-cases (lookup owner c.peers)) [
      | inl e ↦ ground arith
      | inr (node, e) ↦ ground (
        arith,
        same (record { public_addr = node.public_addr; path = path; redir_n = increment n }) refl
            refl (increment-le n t),
      )
    ]
  ]

  -- The result of `OpenRead` is the same for any peers that answer alike to the requests for the same path
  -- whose redirect count is one more than that of the read, and at most the limit.
  pub open_read-requests :
      (entry : TreeNodeReadonly)
      → open_read disk get c path entry n ≡ open_read disk get' c path entry n
  unfolding open_read
  open_read-requests entry =
      ap
        (λ r.
          if entry.stat.owner_node == c.local_fs.my_node_name
          then read_local disk (local_open_read c.local_fs path)
          else r)
        (read_remote-requests entry.stat.owner_node)

-- A node of a network: its state, and its disk.
pub record Server : Type 0 where
  pub cluster : Cluster
  pub disk : Text → Option Text

abbrev pub as_answer : ReadResult → HttpAnswer
as_answer (contents body) = status 200 body
as_answer (failed e) = status 500 []

-- What a node answers to a request for a file, the HTTP handlers `Fs` and `ServeFile`; `other` is its
-- answer if there is no file at the path.
unfoldable pub serve :
    (RemoteRequest → HttpAnswer)
    → (RemoteRequest → HttpAnswer)
    → Server
    → RemoteRequest
    → HttpAnswer
unfolding open_read
serve other get s r = elim (node_at s.cluster.dfs_root (names_of r.path)) [
  | none ↦ other r
  | some entry ↦
      if is_dir entry
      then other r
      else as_answer (open_read s.disk get s.cluster r.path (get_readonly entry) r.redir_n)
]

-- A byte that a URL can have in its path as it is.
abbrev pub is_url_byte : ℕ → Bool
is_url_byte c = not (c == b'#' || c == b'?' || c == b'%' || c == 127) && ltb_ℤ (pos 32) (pos c)

abbrev pub has_url_bytes : Text → Bool
has_url_bytes [] = true
has_url_bytes (c ∷ t) = is_url_byte c && has_url_bytes t

-- A path that is left as it is when it is put into a URL and read again.
pub record IsPlainPath (path : Text) : Type 0 where
  pub x : Text
  pub q : List Text
  pub elements : All IsElement (x ∷ q)
  pub joined : path ≡ join (x ∷ q) slash
  pub bytes : has_url_bytes path ≡ true

-- What reads the URL of a request keeps the requests for plain paths.
abbrev pub ReadsPlain : (RemoteRequest → RemoteRequest) → Type 0
ReadsPlain reads = (r : RemoteRequest) → IsPlainPath r.path → reads r ≡ r

-- `reads` is what the handler of a node, behind net/http, reads of the URL that `OpenRead` makes of a
-- request. `OpenRead` does not escape the path, so a `#` or `?` in it ends the path there and hides the
-- count, and a `%` is decoded or refused. `net` is the node that an address reaches.
module _ (reads : RemoteRequest → RemoteRequest) (other : RemoteRequest → HttpAnswer)
    (net : Text → Option Server) where
  -- A request in a network of nodes by address. The fuel counts the nodes on its way.
  unfoldable pub network : ℕ → RemoteRequest → HttpAnswer
  unfolding serve
  network zero r = unreachable
  network (suc fuel) r = elim (net r.public_addr) [
    | none ↦ unreachable
    | some s ↦ serve other (network fuel) s (reads r)
  ]
