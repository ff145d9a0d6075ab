-- ===== src/Posixpath/Relative.antt =====
-- go/internal/posixpath/paths.go: `posixRelative` and `nonEmptySegments`.
use infrawright_dev.Posixpath.Normalize.{split, is_blank, dot_dot}
use infrawright_dev.Base.{List, [], ◌∷◌, ◌++◌, if◌then◌else◌, Text, text_eq, codes}
use infrawright_dev.Tfrender.Imports.{join}

unfoldable pub non_empty : List Text → List Text
non_empty [] = []
non_empty (segment ∷ raw) =
    let out = non_empty raw in if is_blank segment then out else segment ∷ out

unfoldable pub non_empty_segments : Text → List Text
unfolding non_empty split
non_empty_segments p = non_empty (split p)

-- A parent for each part that is left.
unfoldable pub parents : List Text → List Text
parents [] = []
parents (part ∷ parts) = dot_dot ∷ parents parts

-- The parts behind those that the two paths have in common.
unfoldable pub relative_parts : List Text → List Text → List Text
unfolding parents text_eq
relative_parts [] to_parts = to_parts
relative_parts (f ∷ from_parts) [] = parents (f ∷ from_parts)
relative_parts (f ∷ from_parts) (t ∷ to_parts) =
    let rest = relative_parts from_parts to_parts in
    if text_eq f t then rest else parents (f ∷ from_parts) ++ t ∷ to_parts

unfoldable pub posix_relative : Text → Text → Text
unfolding relative_parts non_empty_segments join
posix_relative from to =
    if text_eq from to
    then []
    else join (codes "/") (relative_parts (non_empty_segments from) (non_empty_segments to))
