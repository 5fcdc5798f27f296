-- ===== src/EditFile/Tests.antt =====
-- Two edits of a file of three lines.
use kontekst.Prelude.Int.{pos}
use kontekst.Prelude.{◌≡◌, refl, List, [], ◌∷◌, none, codes, bytes_eq, All, true, if◌then◌else◌}
use kontekst.Diff.Lcs.{Lines}
use kontekst.Hashline.{crc_shift, crc_update, checksum_ieee, base64_char, compute_line_hash}
use kontekst.EditFile.{
  delete, insert_after, Edit, done, found_line, has_line, check_edit, validate_from, validate_edits,
  apply_edits, apply_all, apply_edit, apply_line, apply_at, sort_edits, insert_sorted,
}
use kontekst.Core.{Json, text, number, array, object, no_items, item, Fields, no_fields, field}
use kontekst.Diff.Split.{split, strip_last, split_lines, join, assemble_content, ends_in_newline}
use kontekst.Paths.{
  parts_from, parts_of, is_dot, is_dot_dot, go_up, clean_parts, join_parts, clean_relative,
  is_relative_path_safe, joined_parts, join_path, lookup, get_string_arg, validate_path,
}
use kontekst.EditFile.Arguments.{
  operation_of, int_of, truncate_ℕ, content_of, with_hash, with_operation, parse_edit, parse_items,
  parse_edits,
}
use kontekst.EditFile.Tool.{
  Stored, FileStore, FileTool, ok, applied_plan, checked_plan, stored_plan, plan_edits, edits_plan,
  path_plan, prepare_edits, written, write_plan, execute,
}
use kontekst.EditFile.Execution.{Done, execute-Done}
use kontekst.EditFile.Sorted.{InRange, Distinct, validate_edits-Passed, edit_for}
use kontekst.EditFile.Edited.{edited}
use kontekst.EditFile.Apply.{apply_edits-edited}

abbrev file : Lines
file = codes "one" ∷ codes "two" ∷ codes "three" ∷ []

abbrev edits : List Edit
edits =
    record { operation = insert_after; line = pos 1; hash = codes "emy"; content = codes "new" }
    ∷ record { operation = delete; line = pos 3; hash = codes "RsX"; content = [] }
    ∷ []

edits_checked : validate_edits file edits ≡ none
unfolding validate_edits validate_from check_edit found_line has_line compute_line_hash base64_char
    checksum_ieee crc_update crc_shift bytes_eq
edits_checked = refl

edits_applied : edited edits 1 file ≡ codes "one" ∷ codes "new" ∷ codes "two" ∷ []
unfolding edited edit_for
edits_applied = refl

validate_edits-Passed_example :
    All (λ e. InRange 3 e × (compute_line_hash (found_line file e.line) ≡ e.hash)) edits
    × Distinct edits
validate_edits-Passed_example = validate_edits-Passed file edits edits_checked

apply_edits-edited_example : apply_edits file edits ≡ done (edited edits 1 file)
apply_edits-edited_example = apply_edits-edited file edits edits_checked (tt, (tt, tt))

abbrev tool : FileTool
tool = record { base_dir = codes "/w"; max_size_bytes = 100 }

-- The file "one\ntwo\nthree\n" at /w/f.txt.
abbrev store : FileStore
store = record {
  at = λ path.
      if bytes_eq path (codes "/w/f.txt")
      then Stored.file (assemble_content file true)
      else Stored.missing;
  write_error = λ path. none;
}

abbrev delete_third : Json
delete_third = object (
    field (codes "operation") (text (codes "delete")) (
      field (codes "line") (number (pos 3) (pos 0))
        (field (codes "hash") (text (codes "RsX")) no_fields)))

abbrev args : Fields
args =
    field (codes "path") (text (codes "f.txt"))
      (field (codes "edits") (array (item delete_third no_items)) no_fields)

execute-Done_example :
    Done tool [] store args (execute tool [] store args).0 (execute tool [] store args).1
execute-Done_example = execute-Done tool [] store args

executed : (execute tool [] store args).0 ≡ ok 1
unfolding execute prepare_edits path_plan edits_plan plan_edits stored_plan checked_plan
    applied_plan write_plan written validate_path get_string_arg lookup is_relative_path_safe
    clean_relative clean_parts parts_of parts_from go_up is_dot is_dot_dot join_parts join_path
    joined_parts parse_edits parse_items parse_edit with_operation with_hash content_of operation_of
    int_of truncate_ℕ validate_edits validate_from check_edit found_line has_line compute_line_hash
    base64_char checksum_ieee crc_update crc_shift bytes_eq apply_edits apply_all apply_edit
    apply_line apply_at sort_edits insert_sorted split_lines split strip_last assemble_content join
    ends_in_newline
executed = refl
