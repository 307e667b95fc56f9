-- ===== src/Fat/Names.antt =====
-- The path of a list of names, as text, leads the front ends to the node that the names lead to.
use dftp.Base.{List, [], ◌∷◌, Text, All, ◌≡◌, ap, ◌∙◌, returns}
use dftp.Strings.{split, join, slash}
use dftp.Strings.Ends.{
  IsName, join-EndsPlain, join-BeginsPlain, trim_prefix-BeginsPlain, trim_suffix-EndsPlain,
  split-names, EndsPlain, BeginsPlain,
}
use dftp.Fat.{TreeNode, seek}
use dftp.Fat.Paths.{node_at, names_of, seek-eq-node_at}

names_of-plain : (s : Text) → EndsPlain s → BeginsPlain s → names_of s ≡ split s b'/'
unfolding names_of
names_of-plain [] e (c, t, p, q) = cc
names_of-plain (c ∷ s) e b = rw (trim_prefix-BeginsPlain (c ∷ s) b, trim_suffix-EndsPlain (c ∷ s) e)

pub names_of-join :
    (x : Text) (q : List Text) → All IsName (x ∷ q) → names_of (join (x ∷ q) slash) ≡ x ∷ q
names_of-join x q h =
    names_of-plain (join (x ∷ q) slash) (join-EndsPlain x q h) (join-BeginsPlain x q h)
    ∙ split-names x q h

-- `Seek` at the names joined by slashes finds the node that they lead to.
pub seek-join :
    (n : TreeNode) (x : Text) (q : List Text)
    → All IsName (x ∷ q)
    → seek n (join (x ∷ q) slash) ≡ returns (node_at n (x ∷ q))
seek-join n x q h =
    seek-eq-node_at n (join (x ∷ q) slash) ∙ ap (λ p. returns (node_at n p)) (names_of-join x q h)
