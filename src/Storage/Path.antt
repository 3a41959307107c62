-- ===== src/Storage/Path.antt =====
-- `path/filepath` on a system with slashes: `Join(base, key)` is the cleaned `base/key`.
pub mod Laws
use artifact_registry_servic.Base.{
  String, ◌<>◌, ◌==◌, Bool, true, false, ◌&&◌, ◌||◌, List, [], ◌∷◌, split, has_prefix,
  if◌then◌else◌,
}
use mathlib.Core.List.{reverse}

-- The part `..`, on the parts that stand before it, the last at the head.
unfoldable pub parent : Bool → List String → List String
parent rooted [] = if rooted then [] else ".." ∷ []
parent rooted (top ∷ stack) = if top == ".." then ".." ∷ top ∷ stack else stack

unfoldable pub clean_parts : Bool → List String → List String → List String
unfolding parent
clean_parts rooted stack [] = reverse stack
clean_parts rooted stack (part ∷ parts) =
    clean_parts rooted
      (if part == "" || part == "."
        then stack
        else if part == ".."
        then parent rooted stack
        else part ∷ stack)
      parts

unfoldable pub join_parts : List String → String
join_parts [] = ""
join_parts (part ∷ []) = part
join_parts (part ∷ next ∷ parts) = part <> "/" <> join_parts (next ∷ parts)

abbrev or_dot : String → String
or_dot s = if s == "" then "." else s

-- `filepath.Clean`.
unfoldable pub clean : String → String
unfolding clean_parts join_parts split has_prefix
clean path =
    if has_prefix path "/"
    then "/" <> join_parts (clean_parts true [] (split path b'/'))
    else or_dot (join_parts (clean_parts false [] (split path b'/')))

-- `filepath.Join(base, key)`, where an empty element is left out.
unfoldable pub join : String → String → String
unfolding clean
join base key =
    if base == "" && key == ""
    then ""
    else if base == ""
    then clean key
    else if key == ""
    then clean base
    else clean (base <> "/" <> key)
