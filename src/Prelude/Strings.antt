-- ===== src/Prelude/Strings.antt =====
-- What the program uses of Go's package strings.
use Prim.Native.Nat.{ℕ, zero, suc, ◌-◌}
use mathlib.Core.Bool.{Bool, true, false, ◌||◌, ◌&&◌}
use mathlib.Core.List.{List, [], ◌∷◌, ◌++◌, reverse}
use mathlib.Core.Option.{Option, none, some}
use kontekst.Prelude.Tests.{◌==◌, leb, if◌then◌else◌}
use kontekst.Prelude.Lists.{length, take, drop}
use kontekst.Prelude.Text.{Bytes, bytes_eq}

-- The white space of ASCII, all that TrimSpace looks for in a text whose ends are ASCII.
unfoldable pub is_space : ℕ → Bool
is_space c = (leb 9 c && leb c 13) || c == 32

unfoldable pub trim_left : Bytes → Bytes
trim_left [] = []
trim_left (c ∷ s) = let rest = trim_left s in if is_space c then rest else c ∷ s

-- strings.TrimSpace
unfoldable pub trim_space : Bytes → Bytes
trim_space s = reverse (trim_left (reverse (trim_left s)))

-- strings.HasPrefix
unfoldable pub has_prefix : (prefix s : Bytes) → Bool
has_prefix [] s = true
has_prefix (p ∷ ps) [] = false
has_prefix (p ∷ ps) (c ∷ s) = let rest = has_prefix ps s in if p == c then rest else false

-- strings.TrimPrefix
unfoldable pub trim_prefix : (prefix s : Bytes) → Bytes
trim_prefix prefix s = if has_prefix prefix s then drop (length prefix) s else s

-- strings.HasSuffix
unfoldable pub has_suffix : (suffix s : Bytes) → Bool
has_suffix suffix s = has_prefix (reverse suffix) (reverse s)

-- strings.TrimSuffix
unfoldable pub trim_suffix : (suffix s : Bytes) → Bytes
trim_suffix suffix s = if has_suffix suffix s then take (length s - length suffix) s else s

-- A text up to the first place of `sep`, and the text from that place on.
unfoldable pub cut_at : (sep s : Bytes) → Option (Bytes × Bytes)
cut_at sep [] = if bytes_eq sep [] then some ([], []) else none
cut_at sep (c ∷ s) =
    let rest = cut_at sep s in
    if has_prefix sep (c ∷ s)
    then some ([], c ∷ s)
    else elim rest [ none ↦ none | some (before, found) ↦ some (c ∷ before, found) ]

-- strings.ReplaceAll for a text that is not empty; `skip` bytes still belong to the last match.
unfoldable pub replace_from : (skip : ℕ) → (old new s : Bytes) → Bytes
replace_from skip old new [] = []
replace_from (suc skip) old new (c ∷ s) = replace_from skip old new s
replace_from zero old new (c ∷ s) =
    let inside = replace_from (length old - 1) old new s in
    let behind = replace_from 0 old new s in
    if has_prefix old (c ∷ s) then new ++ inside else c ∷ behind

unfoldable pub replace_all : (old new s : Bytes) → Bytes
replace_all old new s = replace_from 0 old new s

-- strings.Join
unfoldable pub join_with : (sep : Bytes) → List Bytes → Bytes
join_with sep [] = []
join_with sep (s ∷ []) = s
join_with sep (s ∷ (t ∷ ts)) = s ++ (sep ++ join_with sep (t ∷ ts))
