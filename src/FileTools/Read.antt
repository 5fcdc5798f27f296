-- ===== src/FileTools/Read.antt =====
-- The read_file tool, internal/tool/builtin/read_file.go. The lines are those of a bufio.Scanner with
-- its default buffer.
use kontekst.Prelude.Int.{ℤ, pos, negsuc}
use kontekst.Prelude.{
  ℕ, zero, suc, ◌+◌, ◌-◌, List, [], ◌∷◌, ◌++◌, Option, none, some, Bytes, codes, length, replicate,
  ltb, leb, ◌==◌, if◌then◌else◌,
}
use kontekst.Prelude.Strings.{trim_suffix}
use kontekst.Core.{number, Fields}
use kontekst.Diff.Split.{split_lines}
use kontekst.Diff.Text.{decimal}
use kontekst.Hashline.{compute_line_hash}
use kontekst.Paths.{PathError, ValidPath, valid, refused, validate_path, lookup, join_path}
use kontekst.EditFile.Arguments.{int_of}
use kontekst.EditFile.Tool.{Stored, missing, unreadable, file, FileStore, resolve_base_dir}

abbrev pub max_lines_default : ℕ
max_lines_default = 10000

-- bufio.MaxScanTokenSize: the scanner stops with an error at a line that fills its buffer.
abbrev pub max_scan_token_size : ℕ
max_scan_token_size = 65536

unfoldable pub get_int_arg : (key : Bytes) → Fields → Option ℤ
get_int_arg key args = elim (lookup key args) [ some (number m e) ↦ some (int_of m e) | _ ↦ none ]

-- The carriage return that ScanLines drops from the end of a line.
unfoldable pub drop_cr : Bytes → Bytes
drop_cr [] = []
drop_cr (c ∷ []) = if c == 13 then [] else c ∷ []
drop_cr (c ∷ (d ∷ line)) = c ∷ drop_cr (d ∷ line)

pub data ReadError : Type 0 where
  bad_path : PathError → ReadError
  empty_range : (start_line end_line : ℤ) → ReadError
  open_failed : (error : Bytes) → ReadError
  too_many_lines : ReadError
  line_too_long : ReadError
  no_lines : (start_line count : ℕ) → ReadError

-- The lines that were read, the first of them first, and `hashMap`, empty for other numbers.
pub record Lines : Type 0 where
  pub lines : List Bytes
  pub hash_map : ℕ → Bytes

pub data Scanned : Type 0 where
  scanned : Lines → (line_num : ℕ) → Scanned
  stopped : ReadError → Scanned

abbrev pub no_lines_read : Lines
no_lines_read = record { lines = []; hash_map = λ n. [] }

unfoldable pub add_line : (line_num : ℕ) → Bytes → Lines → Lines
add_line line_num line out = record {
  lines = out.lines ++ (line ∷ []);
  hash_map = λ n. if n == line_num then compute_line_hash line else out.hash_map n;
}

-- The loop from the raw lines on; `line_num` lines were scanned before.
unfoldable pub scan_from :
    (start_line : ℕ) (end_line : Option ℕ) → (line_num : ℕ) → List Bytes → Lines → Scanned
scan_from start_line end_line line_num [] out = scanned out line_num
scan_from start_line none line_num (raw ∷ raws) out =
    let n = suc line_num in
    let line = drop_cr raw in
    let skipped = scan_from start_line none n raws out in
    let rest = scan_from start_line none n raws (add_line n line out) in
    if leb max_scan_token_size (length raw)
    then stopped line_too_long
    else if ltb n start_line
    then skipped
    else if leb max_lines_default (suc (length out.lines))
    then stopped too_many_lines
    else rest
scan_from start_line (some end_line) line_num (raw ∷ raws) out =
    let n = suc line_num in
    let line = drop_cr raw in
    let skipped = scan_from start_line (some end_line) n raws out in
    let rest = scan_from start_line (some end_line) n raws (add_line n line out) in
    if leb max_scan_token_size (length raw)
    then stopped line_too_long
    else if ltb n start_line
    then skipped
    else if ltb end_line n
    then scanned out n
    else rest

-- Sprintf("%*d", width, n)
unfoldable pub padded : (width n : ℕ) → Bytes
padded width n = replicate (width - length (decimal n)) 32 ++ decimal n

unfoldable pub format_lines : (width line_num : ℕ) → (hash_map : ℕ → Bytes) → List Bytes → Bytes
format_lines width line_num hash_map [] = []
format_lines width line_num hash_map (line ∷ lines) =
    padded width line_num
    ++ (58
        ∷ (hash_map line_num
            ++ (124 ∷ (line ++ (10 ∷ format_lines width (suc line_num) hash_map lines)))))

unfoldable pub format_with_line_numbers : (start_line : ℕ) → Lines → Bytes
format_with_line_numbers start_line out = trim_suffix (10 ∷ []) (
    format_lines (length (decimal (start_line + length out.lines - 1))) start_line out.hash_map
      out.lines)

pub data ReadOutcome : Type 0 where
  shows : (start_line : ℕ) → Lines → ReadOutcome
  read_fails : ReadError → ReadOutcome

-- A range without lines is an error.
unfoldable pub shown_lines : List Bytes → (start_line line_num : ℕ) → Lines → ReadOutcome
shown_lines [] start_line line_num out = read_fails (no_lines start_line line_num)
shown_lines (line ∷ lines) start_line line_num out = shows start_line out

unfoldable pub shown : (start_line : ℕ) → Scanned → ReadOutcome
shown start_line (stopped e) = read_fails e
shown start_line (scanned out line_num) = shown_lines out.lines start_line line_num out

-- The path behind the checks of the range.
unfoldable pub read_stored : (start_line : ℕ) → (end_line : Option ℕ) → Stored → ReadOutcome
read_stored start_line end_line missing =
    read_fails (open_failed (codes "no such file or directory"))
read_stored start_line end_line (unreadable e) = read_fails (open_failed e)
read_stored start_line end_line (file bytes) =
    shown start_line (scan_from start_line end_line 0 (split_lines bytes) no_lines_read)

-- A start that is missing or not positive is 1.
unfoldable pub start_line_of : Option ℤ → ℕ
start_line_of none = 1
start_line_of (some (pos zero)) = 1
start_line_of (some (pos (suc n))) = suc n
start_line_of (some (negsuc n)) = 1

unfoldable pub read_range : (start_line : ℕ) → Option ℤ → Stored → ReadOutcome
read_range start_line none stored = read_stored start_line none stored
read_range start_line (some (negsuc n)) stored =
    read_fails (empty_range (pos start_line) (negsuc n))
read_range start_line (some (pos n)) stored =
    if ltb n start_line
    then read_fails (empty_range (pos start_line) (pos n))
    else read_stored start_line (some n) stored

unfoldable pub read_path :
    (base_dir working_dir : Bytes) → FileStore → Fields → ValidPath → ReadOutcome
read_path base_dir working_dir store args (refused e) = read_fails (bad_path e)
read_path base_dir working_dir store args (valid path) =
    read_range (start_line_of (get_int_arg (codes "start_line") args))
      (get_int_arg (codes "end_line") args)
      (store.at (join_path (resolve_base_dir working_dir base_dir) path))

-- Execute, with the lines in place of their text.
unfoldable pub read_lines : (base_dir working_dir : Bytes) → FileStore → Fields → ReadOutcome
read_lines base_dir working_dir store args =
    read_path base_dir working_dir store args (validate_path args)

pub data ReadText : Type 0 where
  text : Bytes → ReadText
  fails : ReadError → ReadText

unfoldable pub text_of : ReadOutcome → ReadText
text_of (read_fails e) = fails e
text_of (shows start_line out) = text (format_with_line_numbers start_line out)

-- Execute of read_file.
unfoldable pub read_file : (base_dir working_dir : Bytes) → FileStore → Fields → ReadText
read_file base_dir working_dir store args = text_of (read_lines base_dir working_dir store args)
