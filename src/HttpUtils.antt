-- ===== src/HttpUtils.antt =====
-- src/dftp/httputils/httputil.go: handlers registered with an http.ServeMux, under a panic catcher. The
-- mux is a parameter, with what Go documents of it.
pub mod Choice
use dftp.Base.{
  ℕ, ◌≤◌, Bool, true, List, [], ◌∷◌, ◌++◌, Option, none, some, Text, length, All, Any, Outcome,
  returns, panics, out_of_fuel, ◌≡◌, ◌⊎◌, ◌≢◌,
}
use dftp.Base.Assoc.{Assoc, lookup}
use dftp.Strings.{has_prefix, has_suffix, slash}
use dftp.FilePath.{clean}

-- One of the patterns.
abbrev pub IsAmong : List Text → Text → Type 0
IsAmong patterns p = Any (λ q. p ≡ q) patterns

-- A pattern that names a subtree.
abbrev pub IsSubtree : Text → Type 0
IsSubtree p = has_suffix p slash ≡ true

-- A path that the mux does not redirect for an element `.` or `..` or a repeated slash.
abbrev pub IsClean : Text → Type 0
IsClean path = (clean path ≡ path) ⊎ (clean path ++ slash ≡ path)

-- The mux, by the pattern under which it serves a path; where there is none, it redirects or answers
-- with a status 404. It serves under the longest pattern that is a prefix of the path. It redirects
-- a path that is not clean, and one that is a pattern but for the slash at its end.
pub record ServeMux : Type 0 where
  pub chosen : List Text → Text → Option Text
  pub serves :
      (patterns : List Text) (path p : Text)
      → All IsSubtree patterns
      → chosen patterns path ≡ some p
      → IsAmong patterns p × (has_prefix path p ≡ true)
  pub longest :
      (patterns : List Text) (path p q : Text)
      → All IsSubtree patterns
      → chosen patterns path ≡ some p
      → IsAmong patterns q
      → has_prefix path q ≡ true
      → length q ≤ length p
  pub finds :
      (patterns : List Text) (path q : Text)
      → All IsSubtree patterns
      → IsClean path
      → All (λ p. path ++ slash ≢ p) patterns
      → IsAmong patterns q
      → has_prefix path q ≡ true
      → (p : Text) × (chosen patterns path ≡ some p)

abbrev pub patterns_of {ℓ} : {H : Type ℓ} → Assoc H → List Text
patterns_of [] = []
patterns_of ((pattern, handler) ∷ rest) = pattern ∷ patterns_of rest

abbrev handler_at {ℓ} : {H : Type ℓ} → Assoc H → Option Text → Option H
handler_at routes none = none
handler_at routes (some pattern) = lookup pattern routes

-- The handler of the routes that the mux calls for a path.
unfoldable pub dispatch {ℓ} : {H : Type ℓ} → ServeMux → Assoc H → Text → Option H
unfolding lookup
dispatch mux routes path = handler_at routes (mux.chosen (patterns_of routes) path)

-- `panicCatcherMiddleware`, which `HandleFunc` puts around a handler: a panic becomes a response.
abbrev pub handle_func {ℓ} : {R : Type ℓ} → R → Outcome R → R
handle_func on_panic (returns r) = r
handle_func on_panic panics = on_panic
handle_func on_panic out_of_fuel = on_panic
