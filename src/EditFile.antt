-- ===== src/EditFile.antt =====
-- The edit_file tool, internal/tool/builtin/edit_file.go: edits are read, checked against the hashes
-- of the lines, and applied from the last line to the first.
pub mod Sorted
pub mod Edited
pub mod Apply
pub mod Arguments
pub mod Tool
pub mod Known
pub mod Execution
mod Tests
use kontekst.Prelude.Int.{ℤ, pos, negsuc, ltb_ℤ, eq_ℤ}
use kontekst.Prelude.{
  ℕ, zero, suc, Bool, true, false, not, ◌||◌, List, [], ◌∷◌, ◌++◌, Option, none, some, Bytes,
  bytes_eq, length, set, take, drop, ltb, leb, if◌then◌else◌,
}
use kontekst.Diff.Lcs.{Lines, line_at}
use kontekst.Hashline.{compute_line_hash}

-- The values of the string field `operation`.
pub data Operation : Type 0 where
  replace insert_after insert_before delete : Operation
  other : Bytes → Operation

pub record Edit : Type 0 where
  pub operation : Operation
  pub line : ℤ
  pub hash : Bytes
  pub content : Bytes

pub data EditError : Type 0 where
  duplicate_edit : (index : ℕ) (line : ℤ) → EditError
  out_of_range : (index : ℕ) (line : ℤ) (count : ℕ) → EditError
  hash_mismatch : (index : ℕ) (line : ℤ) (expected found content : Bytes) → EditError
  unknown_operation : Bytes → EditError

-- `seen[line]`, with the lines seen so far in a list.
unfoldable pub has_line : ℤ → List ℤ → Bool
has_line line [] = false
has_line line (l ∷ ls) = eq_ℤ l line || has_line line ls

-- `e.line - 1` as an index into the lines; none is an index out of range.
abbrev pub line_index : ℤ → Option ℕ
line_index (pos zero) = none
line_index (pos (suc n)) = some n
line_index (negsuc n) = none

-- lines[line-1]
unfoldable pub found_line : Lines → ℤ → Bytes
found_line lines line = elim (line_index line) [ none ↦ [] | some i ↦ line_at lines i ]

-- The checks of one edit in their order.
unfoldable pub check_edit : (index : ℕ) → List ℤ → Lines → Edit → Option EditError
check_edit index seen lines e =
    let found = found_line lines e.line in
    if has_line e.line seen
    then some (duplicate_edit index e.line)
    else if ltb_ℤ e.line (pos 1) || ltb_ℤ (pos (length lines)) e.line
    then some (out_of_range index e.line (length lines))
    else if bytes_eq (compute_line_hash found) e.hash
    then none
    else some (hash_mismatch index e.line e.hash (compute_line_hash found) found)

-- The loop of validateEdits; `none` is a nil error.
unfoldable pub validate_from : (index : ℕ) → List ℤ → Lines → List Edit → Option EditError
validate_from index seen lines [] = none
validate_from index seen lines (e ∷ es) =
    let rest = validate_from (suc index) (e.line ∷ seen) lines es in
    elim (check_edit index seen lines e) [ none ↦ rest | some error ↦ some error ]

unfoldable pub validate_edits : Lines → List Edit → Option EditError
validate_edits lines edits = validate_from 0 [] lines edits

-- slices.SortFunc by descending line. On equal lines the order is not specified there.
unfoldable pub insert_sorted : Edit → List Edit → List Edit
insert_sorted e [] = e ∷ []
insert_sorted e (d ∷ ds) = if ltb_ℤ e.line d.line then d ∷ insert_sorted e ds else e ∷ d ∷ ds

unfoldable pub sort_edits : List Edit → List Edit
sort_edits [] = []
sort_edits (e ∷ es) = insert_sorted e (sort_edits es)

-- What applying gives: lines, an error, or the panic of an index out of range.
pub data Applied : Type 0 where
  done : Lines → Applied
  failed : EditError → Applied
  panic : Applied

abbrev set_line : Lines → ℕ → Bytes → Applied
set_line lines i content = if ltb i (length lines) then done (set lines i content) else panic

-- slices.Delete(lines, i, i + 1)
abbrev delete_line : Lines → ℕ → Applied
delete_line lines i =
    if ltb i (length lines) then done (take i lines ++ drop (suc i) lines) else panic

-- slices.Insert(lines, i, content)
abbrev insert_line : Lines → ℕ → Bytes → Applied
insert_line lines i content =
    if leb i (length lines) then done (take i lines ++ (content ∷ drop i lines)) else panic

-- The body of the loop at index `i` = `e.line - 1`.
unfoldable pub apply_at : Operation → Lines → (i : ℕ) → (content : Bytes) → Applied
apply_at replace lines i content = set_line lines i content
apply_at delete lines i content = delete_line lines i
apply_at insert_after lines i content = insert_line lines (suc i) content
apply_at insert_before lines i content = insert_line lines i content
apply_at (other op) lines i content = failed (unknown_operation op)

-- The body where `e.line - 1` is negative: only an insertion behind line 0 is in range.
unfoldable pub apply_outside : Operation → Lines → ℤ → (content : Bytes) → Applied
apply_outside (other op) lines line content = failed (unknown_operation op)
apply_outside insert_after lines line content =
    if eq_ℤ line (pos 0) then insert_line lines 0 content else panic
apply_outside op lines line content = panic

unfoldable pub apply_line : Operation → Lines → ℤ → (content : Bytes) → Applied
apply_line op lines (pos (suc i)) content = apply_at op lines i content
apply_line op lines line content = apply_outside op lines line content

unfoldable pub apply_edit : Lines → Edit → Applied
apply_edit lines e = apply_line e.operation lines e.line e.content

unfoldable pub apply_all : Lines → List Edit → Applied
apply_all lines [] = done lines
apply_all lines (e ∷ es) = elim (apply_edit lines e) [
  | done lines' ↦ apply_all lines' es
  | failed error ↦ failed error
  | panic ↦ panic
]

unfoldable pub apply_edits : Lines → List Edit → Applied
apply_edits lines edits = apply_all lines (sort_edits edits)
