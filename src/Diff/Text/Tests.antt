-- ===== src/Diff/Text/Tests.antt =====
-- The text diff of two short files.
use kontekst.Prelude.{◌≡◌, refl, List, [], ◌∷◌, ◌++◌, none, codes}
use kontekst.Diff.Lcs.{Lines}
use kontekst.Diff.Changes.{Change}
use kontekst.Diff.Hunk.{Hashes, format_structured_hunk}
use kontekst.Diff.Text.{
  decimal, digits, format_hunk, whole_file_text, header_text, plus_lines, signed_line, print_int,
}
use kontekst.Diff.Text.Printed.{block_text, format_hunk-block_text}

abbrev old_file : Lines
old_file = codes "a" ∷ codes "b" ∷ []

abbrev new_file : Lines
new_file = codes "a" ∷ codes "c" ∷ []

abbrev changes : List Change
changes = record { old_start = 1; old_end = 2; new_start = 1; new_end = 2 } ∷ []

abbrev no_hashes : Hashes
no_hashes line = none

format_hunk-block_text_example :
    format_hunk old_file new_file changes 0 2
    ≡ block_text (format_structured_hunk old_file new_file no_hashes no_hashes changes 0 2)
format_hunk-block_text_example =
    format_hunk-block_text old_file new_file no_hashes no_hashes changes 0 2

printed :
    whole_file_text new_file
    ≡ codes "@@ -0,0 +1,2 @@" ++ (10 ∷ codes "+a") ++ (10 ∷ codes "+c") ++ (10 ∷ [])
unfolding whole_file_text header_text print_int decimal digits plus_lines signed_line
printed = refl
