-- ===== src/FilePath.antt =====
-- The functions of Go's package path/filepath that the program calls, on slash-separated paths.
pub mod Elements
use mathlib.Core.List.{reverse}
use dftp.Base.{
  Bool, ◌||◌, List, [], ◌∷◌, ◌++◌, Text, codes, ◌==◌, byte_eq, text_eq, if◌then◌else◌, ◌≡◌, refl,
}
use dftp.Strings.{has_prefix, split, join, slash}

abbrev pub dot : Text
dot = codes "."

abbrev pub dot_dot : Text
dot_dot = codes ".."

-- `..` removes the element before it, and is dropped at the root of a rooted path.
abbrev pub up : Bool → List Text → List Text
up rooted [] = if rooted then [] else dot_dot ∷ []
up rooted (top ∷ out) = if top == dot_dot then dot_dot ∷ top ∷ out else out

-- One element of a path, onto the elements before it, the last one first.
abbrev pub clean_step : Bool → List Text → Text → List Text
clean_step rooted out elem =
    if elem == [] || elem == dot then out else if elem == dot_dot then up rooted out else elem ∷ out

unfoldable pub clean_loop : Bool → List Text → List Text → List Text
clean_loop rooted out [] = out
clean_loop rooted out (elem ∷ elems) = clean_loop rooted (clean_step rooted out elem) elems

-- filepath.Clean(path)
unfoldable pub clean : Text → Text
unfolding clean_loop has_prefix split join
clean path =
    let rooted = has_prefix path slash in
    let text = join (reverse (clean_loop rooted [] (split path b'/'))) slash in
    if rooted then slash ++ text else if text == [] then dot else text

-- filepath.Join(a, b)
unfoldable pub join_path : Text → Text → Text
unfolding clean
join_path a b = if a == [] then (if b == [] then [] else clean b) else clean (a ++ (slash ++ b))

clean_tests :
    (clean (codes "a//b/./c/../d/") ≡ codes "a/b/d")
    × (clean (codes "/../a") ≡ codes "/a")
    × (clean (codes "../../a/..") ≡ codes "../..")
    × (clean (codes "a/..") ≡ codes ".")
unfolding clean byte_eq text_eq
clean_tests = (refl, refl, refl, refl)

join_tests :
    (join_path (codes "/data/") (codes "somedir/c.jpg") ≡ codes "/data/somedir/c.jpg")
    × (join_path [] [] ≡ [])
    × (join_path (codes "mnt") [] ≡ codes "mnt")
unfolding join_path byte_eq text_eq
join_tests = (refl, refl, refl)
