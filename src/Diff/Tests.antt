-- ===== src/Diff/Tests.antt =====
-- A small diff: what the code computes on it, and the theorems at it.
use kontekst.Prelude.{◌≤◌, ◌≡◌, refl, [], ◌∷◌, none, codes, bytes_eq, length, All}
use kontekst.Diff.Lcs.{Lines, fill_cells, fill_rows, fill_table, walk_back, compute_lcs}
use kontekst.Diff.Lcs.Walk.{Ascends, compute_lcs-Ascends}
use kontekst.Diff.Lcs.Optimal.{start, skip_old, skip_new, pair, compute_lcs_optimal}
use kontekst.Diff.Changes.{changes_from, find_changes}
use kontekst.Diff.Changes.Script.{IsScript, find_changes-IsScript}
use kontekst.Diff.Changes.Patch.{patch, patch-find_changes}
use kontekst.Diff.Split.{split, strip_last, split_lines, ends_in_newline, assemble_content}
use kontekst.Diff.Split.Laws.{assemble_content-split_lines}
use kontekst.Diff.Structured.{blocks_of}
use kontekst.Diff.Structured.Blocks.{IsHunk}
use kontekst.Diff.Structured.Grouping.{blocks_of-IsHunk}

abbrev old_file : Lines
old_file = codes "a" ∷ codes "b" ∷ codes "c" ∷ []

abbrev new_file : Lines
new_file = codes "a" ∷ codes "x" ∷ codes "y" ∷ codes "c" ∷ []

lcs_of_files :
    compute_lcs old_file new_file
    ≡ record { old_index = 0; new_index = 0 } ∷ record { old_index = 2; new_index = 3 } ∷ []
unfolding compute_lcs walk_back fill_table fill_rows fill_cells bytes_eq
lcs_of_files = refl

changes_of_files :
    find_changes old_file new_file
    ≡ record { old_start = 1; old_end = 2; new_start = 1; new_end = 3 } ∷ []
unfolding find_changes changes_from lcs_of_files
changes_of_files = refl

lines_of_text : split_lines (codes "a\n\nb\n") ≡ codes "a" ∷ [] ∷ codes "b" ∷ []
unfolding split_lines split strip_last
lines_of_text = refl

compute_lcs-Ascends_example : Ascends old_file new_file 0 0 (compute_lcs old_file new_file)
compute_lcs-Ascends_example = compute_lcs-Ascends old_file new_file

compute_lcs_optimal_example :
    Ascends old_file new_file 0 0 (compute_lcs old_file new_file)
    × (2 ≤ length (compute_lcs old_file new_file))
compute_lcs_optimal_example =
    compute_lcs_optimal old_file new_file
      (pair refl (skip_new (skip_new (skip_old (pair refl start)))))

find_changes-IsScript_example : IsScript old_file new_file 0 0 0 (find_changes old_file new_file)
find_changes-IsScript_example = find_changes-IsScript old_file new_file

patch-find_changes_example : patch old_file new_file 0 (find_changes old_file new_file) ≡ new_file
patch-find_changes_example = patch-find_changes old_file new_file

blocks_of-IsHunk_example :
    All
      (IsHunk old_file new_file)
      (blocks_of old_file new_file (λ _. none) (λ _. none) (find_changes old_file new_file))
blocks_of-IsHunk_example = blocks_of-IsHunk old_file new_file (λ _. none) (λ _. none)

assemble_content-split_lines_example :
    assemble_content (split_lines (codes "a\n\nb\n")) (ends_in_newline (codes "a\n\nb\n"))
    ≡ codes "a\n\nb\n"
assemble_content-split_lines_example = assemble_content-split_lines (codes "a\n\nb\n")
