-- ===== src/System/Spread.antt =====
-- What each member of a system can come to have, one program after another, and which programs the members
-- run.
use dftp.Base.{
  List, [], ◌∷◌, ◌++◌, append_assoc, text_eq, ◌≡◌, refl, inl, inr, Any, Any-map, Any-mapped, All,
  All-append, All-append_left, All-append_right, All-map, All-among, All-mapped, ap, ◌∙◌, sym,
  subst,
}
use dftp.Cluster.{UpdateData}
use dftp.System.{
  Started, Member, new_member, Message, System, new_system, Event, send, act, Run, begin,
  then_event,
}
use dftp.System.Deliver.{Extends, Grows, Grows-self, Grows-trans, moved-Extends, Becomes}

-- The member runs the program: it has its record and its directory.
abbrev pub Runs : Started → Member → Type 0
Runs p m = (m.cluster.me ≡ p.start.cluster.me) × (m.cluster.local_fs ≡ p.start.cluster.local_fs)

pub Runs-stays : (p : Started) {m m' : Member} → Extends m m' → Runs p m → Runs p m'
Runs-stays p e (same_me, same_fs) = (e.same_me ∙ same_me, e.same_fs ∙ same_fs)

module _ (R : Started → Member → Type 0) {m m' : Member} where
  replaced :
      (before after : List Member) (p : Started)
      → (R p m → R p m')
      → Any (R p) (before ++ m ∷ after)
      → Any (R p) (before ++ m' ∷ after)
  replaced [] after p f (inl r) = inl (f r)
  replaced [] after p f (inr a) = inr a
  replaced (k ∷ before) after p f (inl r) = inl r
  replaced (k ∷ before) after p f (inr a) = inr (replaced before after p f a)

-- Some member plays each program's part, such as to run it.
abbrev pub Stands : (Started → Member → Type 0) → List Started → List Member → Type 0
Stands R ps members = All (λ p. Any (R p) members) ps

Stands-replaced :
    (R : Started → Member → Type 0) (ps : List Started) (before after : List Member) {m m' : Member}
    → ((p : Started) → R p m → R p m')
    → Stands R ps (before ++ m ∷ after)
    → Stands R ps (before ++ m' ∷ after)
Stands-replaced R ps before after f = All-map (λ p. replaced R before after p (f p)) ps

pub Run-append :
    {json : UpdateData → UpdateData} {s t u : System} → Run json s t → Run json t u → Run json s u
Run-append r begin = r
Run-append r (then_event r' e) = then_event (Run-append r r') e

stay :
    {json : UpdateData → UpdateData} (s : System) (members : List Member)
    → s.members ≡ members
    → Run json s (record { members = members; sent = s.sent })
stay {json} s members e = subst (λ z. Run json s (record { members = z; sent = s.sent })) e begin

-- The member as it is has the property.
pub stays :
    {json : UpdateData → UpdateData} {P : Member → Type 0} (s : System) (before after : List Member)
    (m : Member)
    → s.members ≡ before ++ m ∷ after
    → P m
    → Becomes json s before m after P
stays s before after m e p = (m, s.sent, stay s (before ++ m ∷ after) e, Grows-self m, p)

-- Members that are the last ones of a system, after events that change no other member, have the
-- property.
abbrev pub Become : (UpdateData → UpdateData) → System → List Member → (Member → Type 0) → Type 0
Become json s before P =
    (ms' : List Member) × (msgs : List Message) × Run json s
      (record { members = before ++ ms'; sent = msgs })
    × All P ms'

-- What one member can come to have of one program, as long as it has what this takes.
module _ (json : UpdateData → UpdateData) (Has Takes : Member → Started → Type 0)
    (has-stays : (p : Started) (m m' : Member) → Grows m m' → Has m p → Has m' p)
    (takes-stays : (p : Started) (m m' : Member) → Grows m m' → Takes m p → Takes m' p)
    (R : Started → Member → Type 0)
    (part-stays : (p : Started) (m m' : Member) → Grows m m' → R p m → R p m')
    (one : (s : System) (before after : List Member) (m : Member) (p : Started)
      → s.members ≡ before ++ m ∷ after
      → Any (R p) s.members
      → Takes m p
      → Becomes json s before m after (λ m'. Has m' p)) where
  -- A member can come to have it of all programs, one after another.
  one_member :
      (ps : List Started) (s : System) (before after : List Member) (m : Member)
      → s.members ≡ before ++ m ∷ after
      → Stands R ps s.members
      → All (Takes m) ps
      → Becomes json s before m after (λ m'. All (Has m') ps)
  one_member [] s before after m e stands takes = stays s before after m e tt
  one_member (p ∷ ps) s before after m e stands takes =
      let (m1, msgs1, r1, x1, h1) = one s before after m p e stands.0 takes.0 in
      let s1 : System = record { members = before ++ m1 ∷ after; sent = msgs1 } in
      let (m2, msgs2, r2, x2, h2) =
        one_member ps s1 before after m1 refl
          (Stands-replaced R ps before after (λ q. part-stays q _ _ x1)
            (subst (Stands R ps) e stands.1))
          (All-map (λ q. takes-stays q m m1 x1) ps takes.1) in
      (m2, msgs2, Run-append r1 r2, Grows-trans x1 x2, (has-stays p m1 m2 x2 h1, h2))

  -- So can all members, one after another.
  pub all_members :
      (ps : List Started) (s : System) (before ms : List Member)
      → s.members ≡ before ++ ms
      → Stands R ps s.members
      → All (λ m. All (Takes m) ps) ms
      → Become json s before (λ m. All (Has m) ps)
  all_members ps s before [] e stands takes = ([], s.sent, stay s (before ++ []) e, tt)
  all_members ps s before (m ∷ ms) e stands takes =
      let (m', msgs, r, x, h) = one_member ps s before ms m e stands takes.0 in
      let s1 : System = record { members = before ++ m' ∷ ms; sent = msgs } in
      let assoc = append_assoc before (m' ∷ []) in
      let (ms', msgs', r', h') =
        all_members ps s1 (before ++ m' ∷ []) ms (sym (assoc ms))
          (Stands-replaced R ps before ms (λ q. part-stays q _ _ x) (subst (Stands R ps) e stands))
          takes.1 in
      let there : Run json s1 (record { members = before ++ m' ∷ ms'; sent = msgs' }) =
        subst (λ z. Run json s1 (record { members = z; sent = msgs' })) (assoc ms') r' in
      (m' ∷ ms', msgs', Run-append r there, (h, h'))

module _ (json : UpdateData → UpdateData) (ps : List Started) where
  Event-Stands :
      {s t : System} → Event json s t → Stands Runs ps s.members → Stands Runs ps t.members
  Event-Stands (send before after m msg e says) h = h
  Event-Stands (act before after m st e arrives) h =
      Stands-replaced Runs ps before after (λ p. Runs-stays p (moved-Extends m st))
        (subst (Stands Runs ps) e h)

  pub Run-Stands : {t : System} → Run json (new_system ps) t → Stands Runs ps t.members
  Run-Stands begin = All-among ps (λ p a. Any-mapped (Runs p) new_member ps (
      Any-map
        (λ q e. (
          ap (λ (z : Started). z.start.cluster.me) (sym e),
          ap (λ (z : Started). z.start.cluster.local_fs) (sym e),
        ))
        ps a))
  Run-Stands (then_event r e) = Event-Stands e (Run-Stands r)

  -- Each member runs a program of the system.
  abbrev AllRun : List Member → Type 0
  AllRun members = All (λ m. Any (λ p. Runs p m) ps) members

  Event-AllRun : {s t : System} → Event json s t → AllRun s.members → AllRun t.members
  Event-AllRun (send before after m msg e says) h = h
  Event-AllRun (act before after m st e arrives) h =
      let all : AllRun (before ++ m ∷ after) = subst AllRun e h in
      let rest = All-append_right (λ k. Any (λ p. Runs p k) ps) before (m ∷ after) all in
      All-append (λ k. Any (λ p. Runs p k) ps) before _
        (All-append_left (λ k. Any (λ p. Runs p k) ps) before (m ∷ after) all)
        (Any-map (λ p. Runs-stays p (moved-Extends m st)) ps rest.0, rest.1)

  pub Run-AllRun : {t : System} → Run json (new_system ps) t → AllRun t.members
  Run-AllRun begin =
      All-mapped (λ m. Any (λ p. Runs p m) ps) new_member ps
        (All-among ps (λ p a.
          Any-map
            (λ q e. (
              ap (λ (z : Started). z.start.cluster.me) e,
              ap (λ (z : Started). z.start.cluster.local_fs) e,
            ))
            ps a))
  Run-AllRun (then_event r e) = Event-AllRun e (Run-AllRun r)
