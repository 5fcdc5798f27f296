-- ===== src/Skill.antt =====
-- The arguments of a skill, parseArguments of internal/skill/render.go. Its loop is over runes; the
-- quotes and the space are single bytes, so that it reads a valid text byte by byte just as well.
pub mod Quoting
pub mod Render
pub mod Loader
pub mod Registry
mod Tests
use kontekst.Prelude.{
  ℕ, Bool, ◌||◌, List, [], ◌∷◌, ◌++◌, Option, none, some, Bytes, ◌==◌, if◌then◌else◌,
}
use kontekst.Core.{is_empty}

-- The loop; `in_quote` is the quote that is open, if one is.
unfoldable pub parse_arguments_from : (current : Bytes) → (in_quote : Option ℕ) → Bytes → List Bytes
parse_arguments_from current in_quote [] = if is_empty current then [] else current ∷ []
parse_arguments_from current none (r ∷ arguments) =
    let opened = parse_arguments_from current (some r) arguments in
    let fresh = parse_arguments_from [] none arguments in
    let longer = parse_arguments_from (current ++ (r ∷ [])) none arguments in
    if r == 34 || r == 39
    then opened
    else if r == 32
    then if is_empty current then fresh else current ∷ fresh
    else longer
parse_arguments_from current (some quote_char) (r ∷ arguments) =
    let shut = parse_arguments_from current none arguments in
    let longer = parse_arguments_from (current ++ (r ∷ [])) (some quote_char) arguments in
    if r == quote_char then shut else longer

unfoldable pub parse_arguments : Bytes → List Bytes
parse_arguments arguments = parse_arguments_from [] none arguments
