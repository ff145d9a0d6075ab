-- ===== src/Posixpath/Normalize.antt =====
-- go/internal/posixpath/paths.go: `Join`, `Normalize` and `Absolute`.
-- The stack of components is kept with its last component first.
use infrawright_dev.Base.{
  ℕ, zero, suc, Bool, true, false, not, ◌&&◌, ◌||◌, List, [], ◌∷◌, ◌++◌, ◌==◌, if◌then◌else◌, Text,
  codes, text_eq,
}
use infrawright_dev.Tfrender.Imports.{join}

abbrev pub slash : ℕ
slash = b'/'

unfoldable pub has_prefix : Text → Text → Bool
has_prefix [] text = true
has_prefix (p ∷ ps) [] = false
has_prefix (p ∷ ps) (c ∷ cs) = p == c && has_prefix ps cs

unfoldable pub has_slash_suffix : Text → Bool
has_slash_suffix [] = false
has_slash_suffix (c ∷ []) = c == slash
has_slash_suffix (c ∷ d ∷ cs) = has_slash_suffix (d ∷ cs)

abbrev pub is_blank : Text → Bool
is_blank [] = true
is_blank (c ∷ cs) = false

-- The loop of `Join`, with its variable `current`.
unfoldable pub join_parts : Text → List Text → Text
unfolding has_prefix has_slash_suffix
join_parts current [] = current
join_parts current (part ∷ parts) =
    join_parts
      (if has_prefix (codes "/") part
        then part
        else if is_blank current || has_slash_suffix current
        then current ++ part
        else current ++ slash ∷ part)
      parts

abbrev pub add_first : ℕ → List Text → List Text
add_first c [] = (c ∷ []) ∷ []
add_first c (t ∷ ts) = (c ∷ t) ∷ ts

-- `strings.Split(value, "/")`
unfoldable pub split : Text → List Text
split [] = [] ∷ []
split (c ∷ cs) = let rest = split cs in if c == slash then [] ∷ rest else add_first c rest

unfoldable pub initial_slashes : Text → ℕ
unfolding has_prefix
initial_slashes value =
    if has_prefix (codes "//") value && not (has_prefix (codes "///") value)
    then 2
    else if has_prefix (codes "/") value
    then 1
    else 0

abbrev pub dot : Text
dot = codes "."

abbrev pub dot_dot : Text
dot_dot = codes ".."

-- `len(components) == 0 || components[len(components)-1] == ".."`
abbrev pub no_parent : List Text → Bool
no_parent [] = true
no_parent (c ∷ cs) = text_eq c dot_dot

abbrev pub pop : List Text → List Text
pop [] = []
pop (c ∷ cs) = cs

-- One round of the loop over the components.
unfoldable pub push : ℕ → List Text → Text → List Text
push slashes stack component =
    if is_blank component || text_eq component dot
    then stack
    else if not (text_eq component dot_dot) || (slashes == 0 && no_parent stack)
    then component ∷ stack
    else pop stack

unfoldable pub reduce : ℕ → List Text → List Text → List Text
unfolding push
reduce slashes stack [] = stack
reduce slashes stack (c ∷ cs) = reduce slashes (push slashes stack c) cs

-- The stack in the order of the path, in front of other components.
unfoldable pub in_order : List Text → List Text → List Text
in_order [] later = later
in_order (c ∷ stack) later = in_order stack (c ∷ later)

-- `strings.Repeat("/", n)` in front of a text.
unfoldable pub repeat_slash : ℕ → Text → Text
repeat_slash zero text = text
repeat_slash (suc n) text = slash ∷ repeat_slash n text

abbrev pub or_dot : Text → Text
or_dot [] = dot
or_dot (c ∷ cs) = c ∷ cs

unfoldable pub render_path : ℕ → List Text → Text
unfolding repeat_slash in_order join
render_path slashes stack = or_dot (repeat_slash slashes (join (codes "/") (in_order stack [])))

unfoldable pub normalize : Text → Text
unfolding initial_slashes reduce split render_path
normalize [] = dot
normalize (c ∷ cs) =
    let slashes = initial_slashes (c ∷ cs) in
    render_path slashes (reduce slashes [] (split (c ∷ cs)))

-- `Absolute`
unfoldable pub absolute : Text → Text → Text
unfolding has_prefix normalize join_parts
absolute value cwd =
    if has_prefix (codes "/") value
    then normalize value
    else normalize (join_parts [] (cwd ∷ value ∷ []))
