-- ===== src/Event/Source/Path.antt =====
-- `filepath.Base` on a system whose separator is '/'.
use prec.Base.{◌&&◌, [], ◌∷◌, ◌++◌, ◌==◌, if◌then◌else◌}
use prec.Text.{Text, codes, is_empty}

-- The text with no separators at its end.
unfoldable trim_slashes : Text → Text
trim_slashes [] = []
trim_slashes (c ∷ s) =
    let rest = trim_slashes s in if is_empty rest && c == b'/' then [] else c ∷ rest

-- What stands behind the last separator; `part` is what has been read since the last one.
unfoldable last_element : Text → Text → Text
last_element [] part = part
last_element (c ∷ s) part = last_element s (if c == b'/' then [] else part ++ (c ∷ []))

-- `filepath.Base`
unfoldable pub base : Text → Text
unfolding trim_slashes last_element
base path =
    if is_empty path
    then codes "."
    else if is_empty (trim_slashes path)
    then codes "/"
    else last_element (trim_slashes path) []
