-- ===== src/FilePath/Elements.antt =====
-- Clean paths, by their elements.
use mathlib.Core.List.{reverse, reverse_aux}
use dftp.Base.{
  Bool, true, false, List, [], ◌∷◌, ◌++◌, append_assoc, append-nil, Text, byte_eq, text_eq, All,
  All-map, All-append, ◌≡◌, ◌≢◌, refl, ap, ◌∙◌, sym, ==_refl, ==_ne,
}
use dftp.Strings.{has_prefix, split, join, slash}
use dftp.Strings.Laws.{Lacks, split-join, split-append}
use dftp.Strings.Ends.{IsName, BeginsPlain, join-BeginsPlain}
use dftp.FilePath.{dot, dot_dot, clean_step, clean_loop, clean, join_path}

-- An element that `Clean` keeps.
abbrev pub IsElement : Text → Type 0
IsElement n = IsName n × (n ≢ dot) × (n ≢ dot_dot)

pub elements-Lacks : (ns : List Text) → All IsElement ns → All (Lacks b'/') ns
elements-Lacks ns h = All-map (λ n i. i.0.1) ns h

pub elements-IsName : (ns : List Text) → All IsElement ns → All IsName ns
elements-IsName ns h = All-map (λ n i. i.0) ns h

clean_loop-IsElement :
    (rooted : Bool) (out ns : List Text)
    → All IsElement ns
    → clean_loop rooted out ns ≡ reverse_aux ns out
unfolding clean_loop
clean_loop-IsElement rooted out [] h = refl
clean_loop-IsElement rooted out (n ∷ ns) (i, h) =
    rw (==_ne n [] i.0.0, ==_ne n dot i.1, ==_ne n dot_dot i.2)
      (clean_loop-IsElement rooted (n ∷ out) ns h)

pub clean_loop-nil :
    (rooted : Bool) (out ns : List Text)
    → clean_loop rooted out ([] ∷ ns) ≡ clean_loop rooted out ns
unfolding clean_loop text_eq
clean_loop-nil rooted out ns = refl

pub clean_loop-append :
    (rooted : Bool) (out xs ys : List Text)
    → clean_loop rooted out (xs ++ ys) ≡ clean_loop rooted (clean_loop rooted out xs) ys
unfolding clean_loop
clean_loop-append rooted out [] ys = refl
clean_loop-append rooted out (x ∷ xs) ys = clean_loop-append rooted (clean_step rooted out x) xs ys

reverse_aux_twice :
    (xs ys zs : List Text) → reverse_aux (reverse_aux xs ys) zs ≡ reverse_aux ys (xs ++ zs)
reverse_aux_twice [] ys zs = refl
reverse_aux_twice (x ∷ xs) ys zs = reverse_aux_twice xs (x ∷ ys) zs

-- The elements of a path that ends in more of them, some empty ones between.
pub kept :
    (rooted : Bool) (xs ys : List Text)
    → All IsElement xs
    → All IsElement ys
    → reverse (clean_loop rooted (clean_loop rooted [] xs) ys) ≡ xs ++ ys
kept rooted xs ys hx hy =
    ap reverse (
      ap (λ o. clean_loop rooted o ys) (clean_loop-IsElement rooted [] xs hx)
      ∙ clean_loop-IsElement rooted (reverse_aux xs []) ys hy)
    ∙ reverse_aux_twice ys (reverse_aux xs []) []
    ∙ reverse_aux_twice xs [] (ys ++ [])
    ∙ ap (λ z. xs ++ z) (append-nil ys)

pub join-append :
    (p : Text) (ps : List Text) (n : Text) (ns : List Text)
    → join (p ∷ ps ++ n ∷ ns) slash ≡ join (p ∷ ps) slash ++ (slash ++ join (n ∷ ns) slash)
unfolding join
join-append p [] n ns = refl
join-append p (q ∷ ps) n ns =
    ap (λ t. p ++ (slash ++ t)) (join-append q ps n ns)
    ∙ sym (append_assoc p (slash ++ join (q ∷ ps) slash) (slash ++ join (n ∷ ns) slash))

pub split-join_append :
    (p : Text) (ps : List Text) (t : Text)
    → All (Lacks b'/') (p ∷ ps)
    → split (join (p ∷ ps) slash ++ b'/' ∷ t) b'/' ≡ p ∷ ps ++ split t b'/'
unfolding join
split-join_append p [] t h = split-append p t b'/' h.0
split-join_append p (q ∷ ps) t h =
    ap (λ s. split s b'/') (append_assoc p (slash ++ join (q ∷ ps) slash) (b'/' ∷ t))
    ∙ split-append p (join (q ∷ ps) slash ++ b'/' ∷ t) b'/' h.0
    ∙ ap (λ r. p ∷ r) (split-join_append q ps t h.1)

has_prefix-BeginsPlain : (s : Text) → BeginsPlain s → has_prefix s slash ≡ false
unfolding has_prefix
has_prefix-BeginsPlain s (c, t, p, ne) = rw (p, ==_ne c b'/' ne)

pub join_ne : (x : Text) (q : List Text) → All IsElement (x ∷ q) → join (x ∷ q) slash ≢ []
join_ne x q h e = let (c, t, p, ne) = join-BeginsPlain x q (elements-IsName (x ∷ q) h) in cc

-- A path that does not begin with a slash, by what its elements come to.
pub clean_relative :
    (s x : Text) (q : List Text)
    → BeginsPlain s
    → All IsElement (x ∷ q)
    → reverse (clean_loop false [] (split s b'/')) ≡ x ∷ q
    → clean s ≡ join (x ∷ q) slash
unfolding clean
clean_relative s x q b h e =
    rw (has_prefix-BeginsPlain s b, e, ==_ne (join (x ∷ q) slash) [] (join_ne x q h)) refl

-- A path that begins with a slash.
pub clean_rooted :
    (t : Text) (ns : List Text)
    → reverse (clean_loop true [] (split t b'/')) ≡ ns
    → clean (b'/' ∷ t) ≡ b'/' ∷ join ns slash
unfolding clean split has_prefix
clean_rooted t ns e =
    rw (==_refl)
      (ap (λ r. b'/' ∷ join r slash) (ap reverse (clean_loop-nil true [] (split t b'/')) ∙ e))

pub clean-join :
    (x : Text) (q : List Text)
    → All IsElement (x ∷ q)
    → clean (join (x ∷ q) slash) ≡ join (x ∷ q) slash
unfolding clean_loop
clean-join x q h =
    clean_relative (join (x ∷ q) slash) x q (join-BeginsPlain x q (elements-IsName (x ∷ q) h)) h (
      ap (λ r. reverse (clean_loop false [] r)) (split-join x q b'/' (elements-Lacks (x ∷ q) h))
      ∙ kept false [] (x ∷ q) tt h)

-- A relative path of elements that is joined to another one.
pub join_path-join :
    (m : Text) (ms : List Text) (x : Text) (q : List Text)
    → All IsElement (m ∷ ms)
    → All IsElement (x ∷ q)
    → join_path (join (m ∷ ms) slash) (join (x ∷ q) slash) ≡ join (m ∷ ms ++ x ∷ q) slash
unfolding join_path
join_path-join m ms x q hm h = rw (==_ne (join (m ∷ ms) slash) [] (join_ne m ms hm)) (
    ap clean (sym (join-append m ms x q))
    ∙ clean-join m (ms ++ x ∷ q) (All-append IsElement (m ∷ ms) (x ∷ q) hm h))

-- A path below a directory whose path is rooted, and ends in a slash.
pub join_path_rooted :
    (r : Text) (rs : List Text) (t : Text) (ns : List Text)
    → All IsElement (r ∷ rs)
    → reverse (clean_loop true (clean_loop true [] (r ∷ rs)) (split t b'/')) ≡ ns
    → join_path (b'/' ∷ (join (r ∷ rs) slash ++ slash)) t ≡ b'/' ∷ join ns slash
unfolding join_path text_eq
join_path_rooted r rs t ns h e = clean_rooted ((join (r ∷ rs) slash ++ slash) ++ (slash ++ t)) ns (
    ap (λ s. reverse (clean_loop true [] s))
      (ap (λ s. split s b'/') (append_assoc (join (r ∷ rs) slash) slash (slash ++ t))
        ∙ split-join_append r rs (slash ++ t) (elements-Lacks (r ∷ rs) h)
        ∙ ap (λ z. r ∷ rs ++ z) (split-append [] t b'/' tt))
    ∙ ap reverse (
        clean_loop-append true [] (r ∷ rs) ([] ∷ split t b'/')
        ∙ clean_loop-nil true (clean_loop true [] (r ∷ rs)) (split t b'/'))
    ∙ e)
