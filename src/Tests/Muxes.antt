-- ===== src/Tests/Muxes.antt =====
-- A mux that keeps to the documentation, and the routes under it.
use dftp.Base.{
  ◌≤◌, Bool, true, false, List, [], ◌∷◌, Option, none, some, Text, codes, length, ltb, text_eq,
  byte_eq, if◌then◌else◌, returns, ◌≡◌, refl, sym, ap, ◌∙◌, inl, inr, arith, subst, Bool-cases,
}
use dftp.Strings.{has_prefix}
use dftp.FilePath.{clean}
use dftp.HttpUtils.{ServeMux, IsAmong, IsClean}
use dftp.HttpFace
use dftp.HttpFace.{Response, fs}
use dftp.HttpFace.Routes as PublicRoutes
use dftp.HttpFace.Routes.{Answer, page, answer_of, serve_http_lem}
use dftp.Tests.Peers.{node1}
use dftp.Tests.Servers.{empty_disk, deaf}

abbrev better : Text → Option Text → Option Text
better p none = some p
better p (some q) = if ltb (length p) (length q) then some q else some p

-- The longest pattern that is a prefix of the path.
best_of : List Text → Text → Option Text
best_of [] path = none
best_of (p ∷ ps) path =
    let rest = best_of ps path in if has_prefix path p then better p rest else rest

abbrev Best : List Text → Text → Option Text → Type 0
Best ps path none = (q : Text) → IsAmong ps q → has_prefix path q ≡ false
Best ps path (some p) =
    IsAmong ps p
    × (has_prefix path p ≡ true)
    × ((q : Text) → IsAmong ps q → has_prefix path q ≡ true → length q ≤ length p)

fits_not : {A : Type 0} (b : Bool) → b ≡ true → b ≡ false → A
fits_not b h k = absurd (let f : true ≡ false = sym h ∙ k in cc)

better-Best :
    (p : Text) (ps : List Text) (path : Text) (o : Option Text)
    → has_prefix path p ≡ true
    → Best ps path o
    → Best (p ∷ ps) path (better p o)
better-Best p ps path none e h = (
  inl refl,
  e,
  λ q m f. elim m [
    | inl same ↦ omega (arith, ap (λ (t : Text). length t) same)
    | inr m' ↦ fits_not _ f (h q m')
  ],
)
better-Best p ps path (some best) e (among, fits, most) =
    elim (Bool-cases (ltb (length p) (length best))) [
      | inl less ↦ rw less (
        inr among,
        fits,
        λ q m f. elim m [
          | inl same ↦ ground (arith, ap (λ (t : Text). length t) same)
          | inr m' ↦ most q m' f
        ],
      )
      | inr not_less ↦ rw not_less (
        inl refl,
        e,
        λ q m f. elim m [
          | inl same ↦ omega (arith, ap (λ (t : Text). length t) same)
          | inr m' ↦ ground (arith, most q m' f)
        ],
      )
    ]

skip-Best :
    (p : Text) (ps : List Text) (path : Text) (o : Option Text)
    → has_prefix path p ≡ false
    → Best ps path o
    → Best (p ∷ ps) path o
skip-Best p ps path none e h = λ q m. elim m [ inl same ↦ rw same e | inr m' ↦ h q m' ]
skip-Best p ps path (some best) e h =
    (inr h.0, h.1, λ q m f. elim m [ inl same ↦ fits_not _ f (rw same e) | inr m' ↦ h.2 q m' f ])

best_of-Best : (ps : List Text) (path : Text) → Best ps path (best_of ps path)
unfolding best_of
best_of-Best [] path = λ q m. absurd m
best_of-Best (p ∷ ps) path = elim (Bool-cases (has_prefix path p)) [
  | inl e ↦ rw e (better-Best p ps path (best_of ps path) e (best_of-Best ps path))
  | inr e ↦ rw e (skip-Best p ps path (best_of ps path) e (best_of-Best ps path))
]

from_Best : (ps : List Text) (path p : Text) → best_of ps path ≡ some p → Best ps path (some p)
from_Best ps path p e = subst (Best ps path) e (best_of-Best ps path)

found :
    (ps : List Text) (path q : Text) (o : Option Text)
    → Best ps path o
    → IsAmong ps q
    → has_prefix path q ≡ true
    → (p : Text) × (o ≡ some p)
found ps path q none h m f = fits_not _ f (h q m)
found ps path q (some p) h m f = (p, refl)

a_mux : ServeMux
a_mux = record {
  chosen = best_of;
  serves = λ ps path p s e. let (m, f, l) = from_Best ps path p e in (m, f);
  longest = λ ps path p q s e m f. let (_, _, l) = from_Best ps path p e in l q m f;
  finds = λ ps path q s c n m f. found ps path q (best_of ps path) (best_of-Best ps path) m f;
}

-- The path /fs/docs/a is clean, and no pattern but for the slash at its end.
fs_path-IsClean : IsClean (codes "/fs/docs/a")
unfolding clean byte_eq text_eq
fs_path-IsClean = inl refl

abbrev get_file_a : HttpFace.Request
get_file_a = record { url_path = codes "/fs/docs/a"; form_redir_n = [] }

serve_http_lem_example :
    (response : Response) × (fs empty_disk deaf node1 get_file_a ≡ returns response)
    × (PublicRoutes.serve_http empty_disk deaf node1 a_mux get_file_a ≡ some (page response))
unfolding has_prefix byte_eq
serve_http_lem_example =
    serve_http_lem empty_disk deaf node1 a_mux get_file_a refl fs_path-IsClean (
      λ e. omega (arith, ap (λ (t : Text). length t) e),
      (
        λ e. omega (arith, ap (λ (t : Text). length t) e),
        (λ e. omega (arith, ap (λ (t : Text). length t) e), tt),
      ),
    )
