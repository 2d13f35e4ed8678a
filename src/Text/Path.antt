-- ===== src/Text/Path.antt =====
-- `filepath.Clean`, `filepath.Join` of two names and `filepath.IsAbs`, on a system whose separator is
-- '/'; with `strings.HasSuffix`, `strings.TrimSuffix` and `strings.TrimPrefix`.
use prec.Base.{
  ◌-◌, Bool, false, not, ◌&&◌, ◌||◌, List, [], ◌∷◌, ◌++◌, leb, ◌==◌, if◌then◌else◌, length, take,
  drop,
}
use prec.Text.{Text, codes, is_empty, equal, has_prefix, split, join}

-- `filepath.IsAbs`
abbrev pub is_abs : Text → Bool
is_abs [] = false
is_abs (c ∷ _) = c == b'/'

-- One more element behind those that are kept, newest first: "." and the empty one go, and ".." takes
-- the last one away, unless that is ".." itself; at the root ".." goes too.
unfoldable clean_step : Bool → Text → List Text → List Text
clean_step rooted element kept =
    if is_empty element || equal element (codes ".")
    then kept
    else if not (equal element (codes ".."))
    then element ∷ kept
    else elim kept [
      | [] ↦ if rooted then [] else element ∷ []
      | last ∷ rest ↦ if equal last (codes "..") then element ∷ last ∷ rest else rest
    ]

unfoldable clean_elements : Bool → List Text → List Text → List Text
unfolding clean_step
clean_elements rooted [] kept = kept
clean_elements rooted (element ∷ elements) kept =
    clean_elements rooted elements (clean_step rooted element kept)

unfoldable reversed : List Text → List Text → List Text
reversed [] out = out
reversed (x ∷ xs) out = reversed xs (x ∷ out)

-- `filepath.Clean`
unfoldable pub clean : Text → Text
unfolding clean_elements reversed join
clean path =
    let elements = reversed (clean_elements (is_abs path) (split path (codes "/")) []) [] in
    if is_abs path
    then b'/' ∷ join elements (codes "/")
    else if is_empty (join elements (codes "/"))
    then codes "."
    else join elements (codes "/")

-- `filepath.Join`: empty names are passed over.
unfoldable pub join_path : Text → Text → Text
unfolding clean
join_path a b =
    if is_empty a
    then if is_empty b then [] else clean b
    else if is_empty b
    then clean a
    else clean (a ++ (b'/' ∷ b))

-- `strings.HasSuffix`
unfoldable pub has_suffix : Text → Text → Bool
unfolding equal
has_suffix s suffix =
    leb (length suffix) (length s) && equal (drop (length s - length suffix) s) suffix

-- `strings.TrimSuffix`
unfoldable pub trim_suffix : Text → Text → Text
unfolding has_suffix
trim_suffix s suffix = if has_suffix s suffix then take (length s - length suffix) s else s

-- `strings.TrimPrefix`
unfoldable pub trim_prefix : Text → Text → Text
unfolding has_prefix
trim_prefix s prefix = if has_prefix s prefix then drop (length prefix) s else s
