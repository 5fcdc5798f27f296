-- ===== src/Paths.antt =====
-- The path checks of internal/tool/builtin/builtin.go, with filepath.Clean and filepath.Join of a
-- system whose separator is the slash.
pub mod Inside
mod Tests
use kontekst.Prelude.{
  ℕ, Bool, true, false, not, ◌&&◌, ◌||◌, List, [], ◌∷◌, ◌++◌, reverse, Option, none, some, Bytes,
  bytes_eq, codes, ◌==◌, if◌then◌else◌,
}
use kontekst.Core.{Json, text, Fields, no_fields, field, is_empty}

-- The parts of a path between its slashes; `part` is the part so far.
unfoldable pub parts_from : (part : Bytes) → Bytes → List Bytes
parts_from part [] = part ∷ []
parts_from part (c ∷ path) =
    let same = parts_from (part ++ (c ∷ [])) path in
    let fresh = parts_from [] path in if c == 47 then part ∷ fresh else same

unfoldable pub parts_of : Bytes → List Bytes
parts_of path = parts_from [] path

unfoldable pub is_dot : Bytes → Bool
is_dot part = bytes_eq part (46 ∷ [])

unfoldable pub is_dot_dot : Bytes → Bool
is_dot_dot part = bytes_eq part (46 ∷ 46 ∷ [])

-- ".." takes the last part away. With none, or behind another "..", it stays in a relative path,
-- and is dropped in a rooted one.
unfoldable pub go_up : (rooted : Bool) → (dots : Bytes) → List Bytes → List Bytes
go_up rooted dots [] = if rooted then [] else dots ∷ []
go_up rooted dots (p ∷ stack) = if is_dot_dot p then dots ∷ p ∷ stack else stack

-- The parts that Clean keeps, the last on top.
unfoldable pub clean_parts : (rooted : Bool) → List Bytes → (stack : List Bytes) → List Bytes
clean_parts rooted [] stack = stack
clean_parts rooted (p ∷ parts) stack = clean_parts rooted parts (
    if is_empty p || is_dot p
    then stack
    else if is_dot_dot p
    then go_up rooted p stack
    else p ∷ stack)

unfoldable pub join_parts : List Bytes → Bytes
join_parts [] = []
join_parts (p ∷ []) = p
join_parts (p ∷ (q ∷ parts)) = p ++ (47 ∷ join_parts (q ∷ parts))

-- Clean gives "." for the empty path.
abbrev pub dot_if_empty : Bytes → Bytes
dot_if_empty [] = 46 ∷ []
dot_if_empty (c ∷ cs) = c ∷ cs

-- filepath.Clean of a path that does not begin with a slash.
unfoldable pub clean_relative : Bytes → Bytes
clean_relative path = dot_if_empty (join_parts (reverse (clean_parts false (parts_of path) [])))

abbrev pub starts_with : ℕ → Bytes → Bool
starts_with c [] = false
starts_with c (d ∷ path) = d == c

abbrev pub has_dot_dot_prefix : Bytes → Bool
has_dot_dot_prefix [] = false
has_dot_dot_prefix (c ∷ []) = false
has_dot_dot_prefix (c ∷ (d ∷ path)) = c == 46 && d == 46

unfoldable pub is_relative_path_safe : Bytes → Bool
is_relative_path_safe path =
    if is_empty path
    then false
    else if starts_with 47 path || starts_with 92 path
    then false
    else not (has_dot_dot_prefix (clean_relative path))

-- The parts of filepath.Join(base, path) for a rooted base directory.
unfoldable pub joined_parts : (base path : Bytes) → List Bytes
joined_parts base path = reverse (clean_parts true (parts_of (base ++ (47 ∷ path))) [])

-- filepath.Join(base, path), for a base that is absolute
unfoldable pub join_path : (base path : Bytes) → Bytes
join_path base path = 47 ∷ join_parts (joined_parts base path)

-- args[key]
unfoldable pub lookup : (key : Bytes) → Fields → Option Json
lookup key no_fields = none
lookup key (field k value args) =
    let rest = lookup key args in if bytes_eq k key then some value else rest

unfoldable pub get_string_arg : (key : Bytes) → Fields → Option Bytes
get_string_arg key args = elim (lookup key args) [ some (text s) ↦ some s | _ ↦ none ]

pub data PathError : Type 0 where
  missing_path unsafe_path : PathError

pub data ValidPath : Type 0 where
  valid : Bytes → ValidPath
  refused : PathError → ValidPath

unfoldable pub validate_path : Fields → ValidPath
validate_path args = elim (get_string_arg (codes "path") args) [
  | none ↦ refused missing_path
  | some path ↦
      if is_empty path
      then refused missing_path
      else if is_relative_path_safe path
      then valid path
      else refused unsafe_path
]
