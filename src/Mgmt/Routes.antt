-- ===== src/Mgmt/Routes.antt =====
-- src/dftp/cluster/mgmthttp.go: the routes of the management interface.
use mathlib.Core.Option
use dftp.Base.{
  ℤ, true, [], ◌∷◌, ◌++◌, Option, some, Text, codes, text_eq, byte_eq, if◌then◌else◌, All, Any, ◌≡◌,
  ◌≢◌, refl, arith, inl, inr, Bool-cases,
}
use dftp.Base.Assoc.{Assoc, lookup}
use dftp.Strings.{has_prefix, has_suffix, slash}
use dftp.HttpUtils.{ServeMux, IsClean, IsSubtree, patterns_of, dispatch}
use dftp.HttpUtils.Choice.{Weaker, conflict, disjoint, chosen_best}
use dftp.Cluster.{Cluster}
use dftp.Exchange
use dftp.Mgmt.{Request, Response, http_cluster, http_join, http_update, http_index}

-- The handlers that `ServeHttp` registers.
pub data Handler : Type 0 where
  index_handler cluster_handler join_handler update_handler : Handler

-- The patterns of `ServeHttp`
abbrev pub routes : Assoc Handler
routes =
    (codes "/", index_handler)
    ∷ (codes "/cluster/", cluster_handler)
    ∷ (codes "/join/", join_handler)
    ∷ (codes "/update/", update_handler)
    ∷ []

module _ (r : Request) (answers : Text → Exchange.Answer) (now : ℤ) (c : Cluster) where
  -- `HttpIndex`, `HttpCluster`, `HttpJoin` or `HttpUpdate`, under its panic catcher
  abbrev pub run : Handler → Cluster × Response
  run index_handler = http_index c
  run cluster_handler = http_cluster r c
  run join_handler = http_join r answers now c
  run update_handler = http_update r c

  -- The server that `ServeHttp` starts: none where the mux itself answers.
  unfoldable pub serve_http : ServeMux → Text → Option (Cluster × Response)
  unfolding dispatch http_cluster http_join http_update
  serve_http mux path = Option.map run (dispatch mux routes path)

subtrees : All IsSubtree (patterns_of routes)
unfolding has_suffix byte_eq text_eq
subtrees = (refl, (refl, (refl, (refl, tt))))

-- The handler that a path should get.
abbrev pub expected : Text → Handler
expected path =
    if has_prefix path (codes "/cluster/")
    then cluster_handler
    else if has_prefix path (codes "/join/")
    then join_handler
    else if has_prefix path (codes "/update/")
    then update_handler
    else index_handler

module _ (mux : ServeMux) (path : Text) (rooted : has_prefix path slash ≡ true)
    (is_clean : IsClean path) (no_root : All (λ q. path ++ slash ≢ q) (patterns_of routes)) where
  best :
      (p : Text)
      → Any (λ q. p ≡ q) (patterns_of routes)
      → has_prefix path p ≡ true
      → All (Weaker path p) (patterns_of routes)
      → dispatch mux routes path ≡ lookup p routes
  best p = chosen_best mux routes path p subtrees is_clean no_root

  dispatch-expected : dispatch mux routes path ≡ some (expected path)
  unfolding lookup byte_eq text_eq
  dispatch-expected = elim (Bool-cases (has_prefix path (codes "/cluster/"))) [
    | inl e ↦ rw e (
        best (codes "/cluster/") (inr (inl refl)) e (
          λ h. inr (omega arith),
          (λ h. inl refl, (λ h. inr (omega arith), (λ h. inr (omega arith), tt))),
        ))
    | inr ne1 ↦ elim (Bool-cases (has_prefix path (codes "/join/"))) [
      | inl e ↦
          rw (ne1, e)
            (best (codes "/join/") (inr (inr (inl refl))) e (
              λ h. inr (omega arith),
              (
                λ h. conflict _ h ne1,
                (
                  λ h. inl refl,
                  (
                    λ h. conflict _ h (
                        disjoint b'j' b'u' (codes "oin/") (codes "pdate/") path
                          (λ p. omega (arith, p)) e),
                    tt,
                  ),
                ),
              ),
            ))
      | inr ne2 ↦ elim (Bool-cases (has_prefix path (codes "/update/"))) [
        | inl e ↦
            rw (ne1, ne2, e)
              (best (codes "/update/") (inr (inr (inr (inl refl)))) e (
                λ h. inr (omega arith),
                (λ h. conflict _ h ne1, (λ h. conflict _ h ne2, (λ h. inl refl, tt))),
              ))
        | inr ne3 ↦
            rw (ne1, ne2, ne3)
              (best slash (inl refl) rooted (
                λ h. inl refl,
                (λ h. conflict _ h ne1, (λ h. conflict _ h ne2, (λ h. conflict _ h ne3, tt))),
              ))
      ]
    ]
  ]

  -- Under any mux that does what Go documents, a request with a clean and rooted path, which is not a
  -- pattern but for the slash at its end, is served by `HttpCluster` below /cluster/, by `HttpJoin`
  -- below /join/, by `HttpUpdate` below /update/ and by `HttpIndex` elsewhere.
  pub serve_http-run :
      (r : Request) (answers : Text → Exchange.Answer) (now : ℤ) (c : Cluster)
      → serve_http r answers now c mux path ≡ some (run r answers now c (expected path))
  unfolding serve_http
  serve_http-run r answers now c = rw dispatch-expected refl
