-- ===== src/FileTools/Tests.antt =====
-- A file of three lines, read, and written again.
use kontekst.Prelude.Int.{pos}
use kontekst.Prelude.{
  ◌≡◌, refl, arith, List, [], ◌∷◌, ◌++◌, none, Bytes, bytes_eq, codes, if◌then◌else◌, All,
}
use kontekst.Core.{no_fields, field, text, number}
use kontekst.Diff.Split.{split, strip_last, split_lines}
use kontekst.Hashline.{compute_line_hash}
use kontekst.Paths.{
  parts_from, parts_of, is_dot, is_dot_dot, go_up, clean_parts, join_parts, clean_relative,
  is_relative_path_safe, joined_parts, join_path, lookup, get_string_arg, validate_path,
}
use kontekst.EditFile.{Edit, delete, replace, validate_edits}
use kontekst.EditFile.Arguments.{int_of, truncate_ℕ}
use kontekst.EditFile.Tool.{missing, file, FileStore}
use kontekst.FileTools.Read.{
  Lines, shows, read_stored, scan_from, drop_cr, add_line, no_lines_read, shown, shown_lines,
  read_file, read_lines, read_path, read_range, start_line_of, get_int_arg, text_of,
}
use kontekst.FileTools.Shown.{ForShown, read_stored-validated}

abbrev bytes : Bytes
bytes = codes "one" ++ (10 ∷ codes "two" ++ (10 ∷ codes "three" ++ (10 ∷ [])))

abbrev out : Lines
out = add_line 3 (codes "three") (add_line 2 (codes "two") no_lines_read)

abbrev edits : List Edit
edits =
    record {
      operation = replace;
      line = pos 2;
      hash = compute_line_hash (codes "two");
      content = codes "2";
    }
    ∷ record {
      operation = delete;
      line = pos 3;
      hash = compute_line_hash (codes "three");
      content = [];
    }
    ∷ []

out_read : read_stored 2 none (file bytes) ≡ shows 2 out
unfolding read_stored scan_from drop_cr add_line shown shown_lines split_lines split strip_last
out_read = refl

lines_plain : All (λ raw. drop_cr raw ≡ raw) (split_lines bytes)
unfolding drop_cr split_lines split strip_last
lines_plain = (refl, (refl, (refl, tt)))

edits_shown : All (ForShown 2 out) edits
unfolding add_line
edits_shown =
    ((2, refl, omega arith, omega arith, refl), ((3, refl, omega arith, omega arith, refl), tt))

read_stored-validated_example : validate_edits (split_lines bytes) edits ≡ none
read_stored-validated_example =
    read_stored-validated 2 none bytes out edits (omega arith) lines_plain out_read edits_shown
      (((λ e. ground (arith, e)), tt), (tt, tt))

abbrev store : FileStore
store = record {
  at = λ path. if bytes_eq path (codes "/w/f.txt") then file bytes else missing;
  write_error = λ path. none;
}

read_two :
    read_file (codes "/w") [] store (
      field
        (codes "path")
        (text (codes "f.txt"))
        (field (codes "start_line") (number (pos 3) (pos 0)) no_fields))
    ≡ text_of (shows 3 (add_line 3 (codes "three") no_lines_read))
unfolding read_file read_lines read_path read_range start_line_of get_int_arg read_stored scan_from
    drop_cr add_line shown shown_lines split_lines split strip_last parts_from parts_of is_dot
    is_dot_dot go_up clean_parts join_parts clean_relative is_relative_path_safe joined_parts
    join_path lookup get_string_arg validate_path int_of truncate_ℕ bytes_eq text_of
read_two = refl
