-- ===== src/EditFile/Edited.antt =====
-- What the edits of internal/tool/builtin/edit_file.go make of the lines, one line after another.
use kontekst.Prelude.{ℕ, suc, List, [], ◌∷◌, ◌++◌, Option, none, some, Bytes}
use kontekst.Diff.Lcs.{Lines}
use kontekst.EditFile.{Operation, replace, delete, insert_after, insert_before, other, Edit}
use kontekst.EditFile.Sorted.{edit_for}

-- What stands in a line's place.
abbrev pub expand_by : Operation → Bytes → Bytes → Lines
expand_by replace content line = content ∷ []
expand_by delete content line = []
expand_by insert_after content line = line ∷ content ∷ []
expand_by insert_before content line = content ∷ line ∷ []
expand_by (other op) content line = line ∷ []

abbrev pub expand : Option Edit → Bytes → Lines
expand none line = line ∷ []
expand (some e) line = expand_by e.operation e.content line

-- The lines, the first of which has number `n`, each with its edit.
unfoldable pub edited : List Edit → (n : ℕ) → Lines → Lines
edited es n [] = []
edited es n (line ∷ lines) = expand (edit_for n es) line ++ edited es (suc n) lines

abbrev pub IsKnown : Operation → Type 0
IsKnown (other op) = ⊥
IsKnown op = Unit
