-- ===== src/Diff/Split.antt =====
-- SplitLines of internal/tool/diff/diff.go, and assembleContent of
-- internal/tool/builtin/edit_file.go, which puts lines together again.
pub mod Laws
use kontekst.Prelude.{
  ℕ, Bool, true, false, not, List, [], ◌∷◌, ◌++◌, Bytes, ◌==◌, ◌&&◌, if◌then◌else◌,
}
use kontekst.Diff.Lcs.{Lines}

abbrev pub newline : ℕ
newline = b'\n'

-- Puts a byte in front of the first line.
abbrev pub push_byte : ℕ → Lines → Lines
push_byte b [] = (b ∷ []) ∷ []
push_byte b (l ∷ ls) = (b ∷ l) ∷ ls

-- strings.Split(s, "\n")
unfoldable pub split : Bytes → Lines
split [] = [] ∷ []
split (b ∷ s) = let rest = split s in if b == newline then [] ∷ rest else push_byte b rest

-- Cuts off a last line that is empty.
unfoldable pub strip_last : Lines → Lines
strip_last [] = []
strip_last ([] ∷ []) = []
strip_last (l ∷ ls) = l ∷ strip_last ls

unfoldable pub split_lines : Bytes → Lines
split_lines [] = []
split_lines (b ∷ s) = strip_last (split (b ∷ s))

-- strings.Join(lines, "\n")
unfoldable pub join : Lines → Bytes
join [] = []
join (l ∷ []) = l
join (l ∷ m ∷ ls) = l ++ (newline ∷ join (m ∷ ls))

abbrev pub is_empty {ℓ} : {A : Type ℓ} → List A → Bool
is_empty [] = true
is_empty (x ∷ xs) = false

unfoldable pub assemble_content : Lines → Bool → Bytes
assemble_content lines trailing_newline =
    if trailing_newline && not (is_empty lines) then join lines ++ newline ∷ [] else join lines

-- len(data) > 0 && data[len(data)-1] == '\n'
unfoldable pub ends_in_newline : Bytes → Bool
ends_in_newline [] = false
ends_in_newline (b ∷ []) = b == newline
ends_in_newline (b ∷ c ∷ s) = ends_in_newline (c ∷ s)
