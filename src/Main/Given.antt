-- ===== src/Main/Given.antt =====
-- Servers that `main` starts only if their address is given (src/dftp/main.go).
use dftp.Base.{
  false, ◌&&◌, ℤ, Bool, true, [], Option, none, some, Text, text_eq, ◌≡◌, refl, ==_ne, ==_refl, ◌⊎◌,
  inl, inr, ◌↔◌,
}
use dftp.Ftp.Server.{ServeFtp, invalid_address, invalid_port, cannot_listen, listens}
use dftp.Main.{Program, unless_empty}
use dftp.Main.Servers.{http_given, Serving, ftp_end, if_given, both}

pub both-some :
    {A : Type 0} (p : Program) (x : Option (Option A)) (y : Option (Option ℤ)) {s : Serving A}
    → both p x y ≡ some s
    → ((at : Option A) × (x ≡ some at)) × ((port : Option ℤ) × (y ≡ some port))
both-some p none y e = cc
both-some p (some at) none e = cc
both-some p (some at) (some port) e = ((at, refl), (port, refl))

-- A server is no reason to end if it is not started, or if its start goes on.
pub given_lem :
    {B G : Type 0} (start : Text → Option (Option B)) (addr : Text)
    → (((b : Option B) × (start addr ≡ some b)) ↔ G)
    → ((b : Option B) × (if_given start (unless_empty addr) ≡ some b)) ↔ ((addr ≡ []) ⊎ G)
given_lem start addr (to, from) = elim (text_eq.dec addr []) [
  | yes e ↦ (λ _. inl e, λ _. (none, rw (e, ==_refl) refl))
  | no ne ↦ (
    λ (b, p). inr (to (b, rw (==_ne addr [] ne) at p)),
    λ h. elim h [
      | inl e ↦ absurd (ne e)
      | inr g ↦ let (b, p) = from g in (b, rw (==_ne addr [] ne) p)
    ],
  )
]

pub ftp_goes_on : (s : ServeFtp) {b : Option ℤ} → ftp_end s ≡ some b → (n : ℤ) × (s ≡ listens n)
ftp_goes_on invalid_address e = cc
ftp_goes_on invalid_port e = cc
ftp_goes_on cannot_listen e = cc
ftp_goes_on (listens n) e = (n, refl)

pub stopped : {B : Type 0} {b : B} → ◌≡◌ {A = Option B} none (some b) → ⊥
stopped e = cc

pub both_true : (a b : Bool) → (a && b) ≡ true → (a ≡ true) × (b ≡ true)
both_true true true e = (refl, refl)
both_true true false e = cc
both_true false b e = cc

pub true_both : {a b : Bool} → a ≡ true → b ≡ true → (a && b) ≡ true
true_both e e' = rw (e, e') refl

-- What an HTTP server needs is asked of its address only if it is not empty.
pub http_lem :
    (listens_http : Text → Bool) (addr : Text)
    → (http_given listens_http (unless_empty addr) ≡ true)
      ↔ ((addr ≡ []) ⊎ (listens_http addr ≡ true))
http_lem listens_http addr = elim (text_eq.dec addr []) [
  | yes e ↦ (λ _. inl e, λ _. rw (e, ==_refl) refl)
  | no ne ↦ (
    λ p. inr (rw (==_ne addr [] ne) at p),
    λ h. elim h [ inl e ↦ absurd (ne e) | inr g ↦ rw (==_ne addr [] ne) g ],
  )
]
