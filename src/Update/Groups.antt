-- ===== src/Update/Groups.antt =====
-- What `groupAnnouncementsByFilepart` returns.
use dftp.Base.{
  Bool, true, false, not, ◌&&◌, List, [], ◌∷◌, ◌++◌, append_assoc, Text, ◌==◌, text_eq, returns,
  ◌≡◌, ◌≢◌, refl, arith, inl, inr, ◌⊎◌, sym, ◌∙◌, All, All-append,
}
use dftp.Update.{
  FileAnnouncement, FileGroup, parts, is_empty, empty_group, group_loop,
  group_announcements_by_filepart,
}

-- The announcement has a first part.
abbrev pub IsReady : FileAnnouncement → Type 0
IsReady fa = (name : Text) × (rest : List Text) × (parts fa ≡ name ∷ rest)

abbrev pub StartsWith : Text → FileAnnouncement → Type 0
StartsWith name fa = (rest : List Text) × (parts fa ≡ name ∷ rest)

abbrev pub all_files : List FileGroup → List FileAnnouncement
all_files [] = []
all_files (g ∷ gs) = g.files ++ all_files gs

abbrev pub IsGroup : FileGroup → Type 0
IsGroup g = (g.files ≢ []) × All (StartsWith g.name) g.files

abbrev pub FirstIs : Text → List FileGroup → Type 0
FirstIs name [] = Unit
FirstIs name (g ∷ gs) = g.name ≡ name

-- Neighbouring groups have different names.
abbrev pub IsSeparated : List FileGroup → Type 0
IsSeparated [] = Unit
IsSeparated (g ∷ []) = Unit
IsSeparated (g ∷ h ∷ gs) = (g.name ≢ h.name) × IsSeparated (h ∷ gs)

-- The groups are runs of the list, as long as can be.
pub record AreRuns (files : List FileAnnouncement) (gs : List FileGroup) : Type 0 where
  pub covers : all_files gs ≡ files
  pub named : All IsGroup gs
  pub separated : IsSeparated gs

IsSeparated-cons :
    (g : FileGroup) (gs : List FileGroup) (name : Text)
    → FirstIs name gs
    → g.name ≢ name
    → IsSeparated gs
    → IsSeparated (g ∷ gs)
IsSeparated-cons g [] name f ne s = tt
IsSeparated-cons g (h ∷ gs) name f ne s = (rw f ne, s)

abbrev LoopSpec : Text → FileGroup → List FileAnnouncement → Type 0
LoopSpec prev group files =
    (gs : List FileGroup) × (group_loop prev group files ≡ returns gs)
    × AreRuns (group.files ++ files) gs
    × (group.files ≢ [] → FirstIs prev gs)

append-ne-nil : (xs : List FileAnnouncement) (x : FileAnnouncement) → xs ++ x ∷ [] ≢ []
append-ne-nil [] x e = cc
append-ne-nil (y ∷ xs) x e = cc

abbrev finishes : Text → Text → List FileAnnouncement → Bool
finishes cur prev files = not (cur == prev) && not (is_empty files)

finishes_cases :
    (cur prev : Text) (files : List FileAnnouncement)
    → ((finishes cur prev files ≡ true) × (cur ≢ prev) × (files ≢ []))
      ⊎ ((finishes cur prev files ≡ false) × (cur ≡ prev))
      ⊎ ((finishes cur prev files ≡ false) × (files ≡ []))
finishes_cases cur prev [] = ground arith
finishes_cases cur prev (fa ∷ files) = ground arith

empty_cases :
    (files : List FileAnnouncement)
    → ((is_empty files ≡ true) × (files ≡ [])) ⊎ ((is_empty files ≡ false) × (files ≢ []))
empty_cases [] = inl (refl, refl)
empty_cases (fa ∷ files) = inr (refl, λ e. cc)

-- The group is over: it is appended, and the next one begins with `fa`.
flush :
    (prev cur : Text) (group : FileGroup) (fa : FileAnnouncement) (files : List FileAnnouncement)
    → All (StartsWith prev) group.files
    → group.name ≡ prev
    → cur ≢ prev
    → group.files ≢ []
    → (gs : List FileGroup) → AreRuns (fa ∷ files) gs
    → FirstIs cur gs
    → AreRuns (group.files ++ fa ∷ files) (group ∷ gs)
flush prev cur group fa files started same ne full gs runs first = record {
  covers = rw runs.covers;
  named = ((full, rw same started), runs.named);
  separated = IsSeparated-cons group gs cur first (λ e. ne (sym e ∙ same)) runs.separated;
}

loop_lem :
    (prev : Text) (group : FileGroup) (files : List FileAnnouncement)
    → All IsReady files
    → All (StartsWith prev) group.files
    → (group.files ≢ [] → group.name ≡ prev)
    → LoopSpec prev group files
unfolding group_loop
loop_lem prev group [] ready started same = elim (empty_cases group.files) [
  | inl (t, e) ↦ ([], rw t, record { covers = rw e; named = tt; separated = tt }, λ h. absurd (h e))
  | inr (f, ne) ↦ (
    group ∷ [],
    rw f,
    record { covers = refl; named = ((ne, rw (same ne) started), tt); separated = tt },
    same,
  )
]
loop_lem prev group (fa ∷ files) ((cur, rest, e), ready) started same =
    elim (finishes_cases cur prev group.files) [
      | inl (f, ne, full) ↦
          let (gs, p, runs, first) =
            loop_lem cur (record { name = cur; files = fa ∷ [] }) files ready ((rest, e), tt)
              (λ _. refl) in
          (
            group ∷ gs,
            rw (e, f, p),
            flush prev cur group fa files started (same full) ne full gs runs (first (λ q. cc)),
            same,
          )
      | inr (inl (f, q)) ↦
          let (gs, p, runs, first) =
            loop_lem cur (record { name = cur; files = group.files ++ fa ∷ [] }) files ready
              (All-append (StartsWith cur) group.files (fa ∷ []) (rw q started) ((rest, e), tt))
              (λ _. refl) in
          (
            gs,
            rw (e, f, p),
            rw append_assoc at runs,
            λ _. rw (← q) (first (append-ne-nil group.files fa)),
          )
      | inr (inr (f, q)) ↦
          let (gs, p, runs, first) =
            loop_lem cur (record { name = cur; files = group.files ++ fa ∷ [] }) files ready
              (rw q ((rest, e), tt)) (λ _. refl) in
          (gs, rw (e, f, p), rw append_assoc at runs, λ h. absurd (h q))
    ]

-- The grouping returns the runs of the list.
abbrev pub Grouped : List FileAnnouncement → Type 0
Grouped files =
    (gs : List FileGroup) × (group_announcements_by_filepart files ≡ returns gs) × AreRuns files gs

-- Of announcements that have a first part, the groups are the longest runs with one first part, in
-- order.
pub group_announcements_lem : (files : List FileAnnouncement) → All IsReady files → Grouped files
unfolding group_announcements_by_filepart
group_announcements_lem files ready =
    let (gs, p, runs, first) = loop_lem [] empty_group files ready tt (λ h. absurd (h refl)) in
    (gs, p, runs)
