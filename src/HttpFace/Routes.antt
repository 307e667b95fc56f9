-- ===== src/HttpFace/Routes.antt =====
-- src/dftp/httpface/server.go: the routes of the public interface.
use mathlib.Core.Option
use dftp.Base.{
  true, false, [], ◌∷◌, ◌++◌, Option, some, Text, codes, text_eq, byte_eq, if◌then◌else◌, All,
  Outcome, returns, ◌>>=◌, ◌≡◌, ◌≢◌, refl, arith, inl, inr, Bool-cases, ap,
}
use dftp.Base.Assoc.{Assoc, lookup}
use dftp.Strings.{has_prefix, has_suffix, slash}
use dftp.HttpUtils.{ServeMux, IsClean, IsSubtree, patterns_of, dispatch, handle_func}
use dftp.HttpUtils.Choice.{conflict, chosen_best}
use dftp.Fat.Paths.{seek-eq-node_at}
use dftp.Cluster.{Cluster}
use dftp.Proxy.{RemoteRequest, HttpAnswer}
use dftp.HttpFace.{Request, Response, request_path, fs, find}

-- The handlers that `ServeHttp` registers.
pub data Handler : Type 0 where
  index_handler fs_handler find_handler : Handler

-- What the interface answers: the text of `Index`, with a status 200, what `Fs` does, the lines that
-- `Find` writes, or a status 500.
pub data Answer : Type 0 where
  index_text : Answer
  page : Response → Answer
  paths : Text → Answer
  internal_error : Answer

-- The patterns of `ServeHttp`
abbrev pub routes : Assoc Handler
routes =
    (codes "/", index_handler) ∷ (codes "/fs/", fs_handler) ∷ (codes "/find/", find_handler) ∷ []

module _ (disk : Text → Option Text) (get : RemoteRequest → HttpAnswer) (c : Cluster) where
  -- `Index`, `Fs` or `Find`
  abbrev pub run : Request → Handler → Outcome Answer
  run r index_handler = returns index_text
  run r fs_handler = fs disk get c r >>= λ response. returns (page response)
  run r find_handler = returns (paths (find c.dfs_root))

  -- The server that `ServeHttp` starts: none where the mux itself answers.
  unfoldable pub serve_http : ServeMux → Request → Option Answer
  unfolding dispatch fs find
  serve_http mux r =
      Option.map (λ h. handle_func internal_error (run r h)) (dispatch mux routes r.url_path)

subtrees : All IsSubtree (patterns_of routes)
unfolding has_suffix byte_eq text_eq
subtrees = (refl, (refl, (refl, tt)))

not_both :
    (path : Text) → has_prefix path (codes "/fs/") ≡ true → has_prefix path (codes "/find/") ≡ false
unfolding has_prefix byte_eq
not_both [] h = refl
not_both (a ∷ []) h = ground arith
not_both (a ∷ b ∷ []) h = ground arith
not_both (a ∷ b ∷ c ∷ path) h = ground arith

-- The handler that a path should get.
abbrev pub expected : Text → Handler
expected path =
    if has_prefix path (codes "/fs/")
    then fs_handler
    else if has_prefix path (codes "/find/")
    then find_handler
    else index_handler

dispatch-expected :
    (mux : ServeMux) (path : Text)
    → has_prefix path slash ≡ true
    → IsClean path
    → All (λ q. path ++ slash ≢ q) (patterns_of routes)
    → dispatch mux routes path ≡ some (expected path)
unfolding lookup byte_eq text_eq
dispatch-expected mux path rooted is_clean no_root =
    elim (Bool-cases (has_prefix path (codes "/fs/"))) [
      | inl e ↦ rw e (
          chosen_best mux routes path (codes "/fs/") subtrees is_clean no_root (inr (inl refl)) e
            (λ h. inr (omega arith), (λ h. inl refl, (λ h. conflict _ h (not_both path e), tt))))
      | inr ne ↦ elim (Bool-cases (has_prefix path (codes "/find/"))) [
        | inl e ↦
            rw (ne, e)
              (chosen_best mux routes path (codes "/find/") subtrees is_clean no_root
                (inr (inr (inl refl))) e
                (λ h. inr (omega arith), (λ h. inr (omega arith), (λ h. inl refl, tt))))
        | inr ne' ↦
            rw (ne, ne')
              (chosen_best mux routes path slash subtrees is_clean no_root (inl refl) rooted
                (λ h. inl refl, (λ h. conflict _ h ne, (λ h. conflict _ h ne', tt))))
      ]
    ]

module _ (disk : Text → Option Text) (get : RemoteRequest → HttpAnswer) (c : Cluster) where
  -- What the interface should answer, once `Fs` has a response.
  abbrev pub answer_of : Request → Response → Answer
  answer_of r response = elim (expected r.url_path) [
    | index_handler ↦ index_text
    | fs_handler ↦ page response
    | find_handler ↦ paths (find c.dfs_root)
  ]

  fs-returns : (r : Request) → (response : Response) × (fs disk get c r ≡ returns response)
  unfolding fs
  fs-returns r = rw (seek-eq-node_at c.dfs_root (request_path r.url_path)) ((_, refl))

  run-returns :
      (r : Request) (response : Response) (h : Handler)
      → fs disk get c r ≡ returns response
      → handle_func internal_error (run disk get c r h) ≡ elim h as (λ _. Answer) [
        | index_handler ↦ index_text
        | fs_handler ↦ page response
        | find_handler ↦ paths (find c.dfs_root)
      ]
  run-returns r response index_handler e = refl
  run-returns r response fs_handler e = rw e refl
  run-returns r response find_handler e = refl

  -- Under any mux that does what Go documents, a request with a clean and rooted path, which is not a
  -- pattern but for the slash at its end, gets what its path says: below /fs/ the response of `Fs`,
  -- below /find/ the listing of all paths, and else the hint of `Index`. No panic is ever caught.
  pub serve_http_lem :
      (mux : ServeMux) (r : Request)
      → has_prefix r.url_path slash ≡ true
      → IsClean r.url_path
      → All (λ q. r.url_path ++ slash ≢ q) (patterns_of routes)
      → (response : Response) × (fs disk get c r ≡ returns response)
        × (serve_http disk get c mux r ≡ some (answer_of r response))
  unfolding serve_http
  serve_http_lem mux r rooted is_clean no_root =
      let (response, e) = fs-returns r in
      (
        response,
        e,
        rw (dispatch-expected mux r.url_path rooted is_clean no_root)
            (ap some (run-returns r response (expected r.url_path) e)),
      )
