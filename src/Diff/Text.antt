-- ===== src/Diff/Text.antt =====
-- The text form of a diff: GenerateUnifiedDiff, GenerateNewFileDiff, computeHunks and formatHunk of
-- internal/tool/diff/diff.go.
pub mod Printed
pub mod Decimal
mod Tests
use kontekst.Prelude.Int.{ℤ, pos, negsuc, sub_ℕ, ◌+ℤ◌, ◌-ℤ◌}
use kontekst.Prelude.{
  ℕ, zero, suc, ◌+◌, ◌-◌, ◌*◌, ◌/◌, ◌%◌, List, [], ◌∷◌, ◌++◌, Option, none, some, Bytes, codes,
  length, take, drop, ltb, leb, ◌==◌, if◌then◌else◌,
}
use kontekst.Diff.Lcs.{Lines, line_at}
use kontekst.Diff.Changes.{Change, find_changes}
use kontekst.Diff.Split.{split_lines}
use kontekst.Diff.Hunk.{
  Header, DiffLine, LineType, DiffBlock, insert, delete, context, filter_changes_in_range,
  compute_new_start, removed_lines, added_lines, is_due,
}
use kontekst.Diff.Structured.{hunk_start_of, hunk_end_of}

-- %d of a number below 10 ^ fuel.
unfoldable pub digits : (fuel : ℕ) → ℕ → Bytes
digits zero n = []
digits (suc fuel) n =
    let front = digits fuel (n / 10) in
    if ltb n 10 then (48 + n) ∷ [] else front ++ ((48 + n % 10) ∷ [])

unfoldable pub decimal : ℕ → Bytes
decimal n = digits (suc n) n

unfoldable pub print_int : ℤ → Bytes
print_int (pos n) = decimal n
print_int (negsuc n) = 45 ∷ decimal (suc n)

-- "@@ -%d,%d +%d,%d @@\n"
unfoldable pub header_text : Header → Bytes
header_text h =
    codes "@@ -"
    ++ (print_int h.old_start
        ++ (44
            ∷ (print_int h.old_count
                ++ (codes " +"
                    ++ (print_int h.new_start
                        ++ (44 ∷ (print_int h.new_count ++ (codes " @@" ++ (10 ∷ [])))))))))

-- A sign, the line and its end.
unfoldable pub signed_line : (sign : ℕ) → Bytes → Bytes
signed_line sign content = sign ∷ (content ++ (10 ∷ []))

module _ (old_lines new_lines : Lines) where
  -- The loop over the old lines of a change, from line `i` on, `n` times.
  unfoldable pub deletes_text : (i n : ℕ) → Bytes
  deletes_text i zero = []
  deletes_text i (suc n) = signed_line 45 (line_at old_lines i) ++ deletes_text (suc i) n

  unfoldable pub inserts_text : (i n : ℕ) → Bytes
  inserts_text i zero = []
  inserts_text i (suc n) = signed_line 43 (line_at new_lines i) ++ inserts_text (suc i) n

  -- The end of the loop's body: a line of context and the next round, or a break.
  unfoldable pub context_text : (hunk_end : ℕ) → (ℕ → List Change → Bytes) → ℕ → List Change → Bytes
  context_text hunk_end loop old_pos changes =
      if ltb old_pos hunk_end
      then signed_line 32 (line_at old_lines old_pos) ++ loop (suc old_pos) changes
      else []

  -- The `for` loop on fuel, as in formatStructuredHunk.
  unfoldable pub hunk_text : (fuel hunk_end old_pos : ℕ) → List Change → Bytes
  hunk_text zero hunk_end old_pos changes = []
  hunk_text (suc fuel) hunk_end old_pos [] =
      context_text hunk_end (hunk_text fuel hunk_end) old_pos []
  hunk_text (suc fuel) hunk_end old_pos (c ∷ cs) =
      let deleted = c.old_end - c.old_start in
      let added = c.new_end - c.new_start in
      let old_pos' = old_pos + deleted in
      let continue = hunk_text fuel hunk_end old_pos' cs in
      let changed =
        deletes_text c.old_start deleted
        ++ (inserts_text c.new_start added
            ++ (if c.old_start == c.old_end
                then continue
                else context_text hunk_end (hunk_text fuel hunk_end) old_pos' cs)) in
      if is_due old_pos c
      then changed
      else context_text hunk_end (hunk_text fuel hunk_end) old_pos (c ∷ cs)

  unfoldable pub relevant_text : (relevant : List Change) → (hunk_start hunk_end : ℕ) → Bytes
  relevant_text [] hunk_start hunk_end = []
  relevant_text (c ∷ cs) hunk_start hunk_end =
      let relevant = c ∷ cs in
      let old_count = sub_ℕ hunk_end hunk_start in
      let new_count = old_count -ℤ removed_lines relevant +ℤ added_lines relevant in
      let new_start = compute_new_start relevant hunk_start in
      header_text (record {
        old_start = pos (suc hunk_start);
        old_count = old_count;
        new_start = new_start +ℤ pos 1;
        new_count = new_count;
      })
      ++ hunk_text (suc ((hunk_end - hunk_start) + length relevant)) hunk_end hunk_start relevant

  unfoldable pub format_hunk : List Change → (hunk_start hunk_end : ℕ) → Bytes
  format_hunk changes hunk_start hunk_end =
      relevant_text (filter_changes_in_range changes hunk_start hunk_end) hunk_start hunk_end

  -- The loop over the changes behind the first, inside a hunk. `changes` is the whole list.
  unfoldable pub hunks_from :
      (changes : List Change) → (hunk_start hunk_end : ℕ) → List Change → List Bytes
  hunks_from changes hunk_start hunk_end [] = format_hunk changes hunk_start hunk_end ∷ []
  hunks_from changes hunk_start hunk_end (c ∷ cs) =
      let joined = hunks_from changes hunk_start (hunk_end_of old_lines c) cs in
      let apart = hunks_from changes (hunk_start_of c) (hunk_end_of old_lines c) cs in
      if leb c.old_start (hunk_end + 3)
      then joined
      else format_hunk changes hunk_start hunk_end ∷ apart

  unfoldable pub hunks_of : List Change → List Bytes
  hunks_of [] = []
  hunks_of (c ∷ cs) = hunks_from (c ∷ cs) (hunk_start_of c) (hunk_end_of old_lines c) cs

  unfoldable pub compute_hunks : List Bytes
  compute_hunks = hunks_of (find_changes old_lines new_lines)

unfoldable pub concat : List Bytes → Bytes
concat [] = []
concat (text ∷ texts) = text ++ concat texts

unfoldable pub plus_lines : Lines → Bytes
plus_lines [] = []
plus_lines (l ∷ ls) = signed_line 43 l ++ plus_lines ls

-- A text and the end of its line.
abbrev pub line_text : Bytes → Bytes
line_text text = text ++ (10 ∷ [])

unfoldable pub whole_file_text : Lines → Bytes
whole_file_text lines =
    header_text (record {
      old_start = pos 0;
      old_count = pos 0;
      new_start = pos 1;
      new_count = pos (length lines);
    })
    ++ plus_lines lines

-- The first and the last lines of a long file.
unfoldable pub truncated_text : Lines → (max_lines : ℕ) → Bytes
truncated_text lines max_lines =
    let total_lines = length lines in
    let first_count = max_lines * 2 / 3 in
    let last_count = max_lines - first_count in
    let start_last = total_lines - last_count in
    line_text (
      codes "@@ -0,0 +1,"
      ++ (decimal first_count
          ++ (codes " @@ (showing "
              ++ (decimal first_count
                  ++ (codes " of " ++ (decimal total_lines ++ codes " lines)"))))))
    ++ (plus_lines (take first_count lines)
        ++ (line_text (
              codes "@@ ... "
              ++ (decimal (total_lines - first_count - last_count)
                  ++ codes " lines omitted ... @@"))
            ++ (line_text (
                  codes "@@ -0,0 +"
                  ++ (decimal (suc start_last) ++ (44 ∷ (decimal last_count ++ codes " @@"))))
                ++ plus_lines (drop start_last lines))))

unfoldable pub new_file_text : (path : Bytes) → Lines → (max_lines : ℕ) → Bytes
new_file_text path [] max_lines = []
new_file_text path (l ∷ ls) max_lines =
    line_text (codes "--- /dev/null")
    ++ (line_text (codes "+++ " ++ path)
        ++ (if leb (length (l ∷ ls)) max_lines
            then whole_file_text (l ∷ ls)
            else truncated_text (l ∷ ls) max_lines))

unfoldable pub generate_new_file_diff : (path content : Bytes) → (max_lines : ℕ) → Bytes
generate_new_file_diff path content max_lines = new_file_text path (split_lines content) max_lines

unfoldable pub with_paths : (path : Bytes) → (hunks : List Bytes) → Bytes
with_paths path [] = []
with_paths path (h ∷ hs) =
    line_text (codes "--- " ++ path) ++ (line_text (codes "+++ " ++ path) ++ concat (h ∷ hs))

-- The body of GenerateUnifiedDiff behind the two calls of SplitLines.
unfoldable pub unified_diff : (path new_content : Bytes) → Lines → Lines → Bytes
unified_diff path new_content [] [] = []
unified_diff path new_content [] (n ∷ ns) = generate_new_file_diff path new_content 1000
unified_diff path new_content (o ∷ os) new_lines =
    with_paths path (compute_hunks (o ∷ os) new_lines)

unfoldable pub generate_unified_diff : (path old_content new_content : Bytes) → Bytes
generate_unified_diff path old_content new_content =
    unified_diff path new_content (split_lines old_content) (split_lines new_content)
