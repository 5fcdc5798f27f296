-- ===== src/Diff/Structured.antt =====
-- GenerateStructuredDiffWithHashes of internal/tool/diff/diff.go: the changes are grouped into
-- hunks, each hunk becomes a block, and the blocks are counted.
pub mod Group
pub mod Blocks
pub mod Totals
pub mod Grouping
use kontekst.Prelude.Int.{ℤ, pos, sub_ℕ}
use kontekst.Prelude.{
  ℕ, zero, suc, min, ◌+◌, ◌-◌, List, [], ◌∷◌, ◌++◌, String, none, some, Bytes, length, leb,
  if◌then◌else◌,
}
use kontekst.Diff.Lcs.{Lines}
use kontekst.Diff.Changes.{Change, find_changes}
use kontekst.Diff.Split.{split_lines, is_empty}
use kontekst.Diff.Hunk.{
  insert, delete, context, LineType, DiffLine, DiffBlock, Hashes, format_structured_hunk,
}

abbrev pub context_lines : ℕ
context_lines = 3

pub record DiffSummary : Type 0 where
  pub total_edits : ℕ
  pub operations : List (String × ℕ)
  pub lines_added : ℕ
  pub lines_removed : ℕ
  pub net_change : ℤ

pub record DiffPreview : Type 0 where
  pub path : Bytes
  pub summary : DiffSummary
  pub blocks : List DiffBlock

-- Where the hunk that begins or goes on with a change starts and ends.
abbrev pub hunk_start_of : Change → ℕ
hunk_start_of c = c.old_start - context_lines

abbrev pub hunk_end_of : Lines → Change → ℕ
hunk_end_of old_lines c = min (length old_lines) (c.old_end + context_lines)

-- A block with no lines is dropped.
unfoldable pub keep_block : DiffBlock → List DiffBlock
keep_block block = if is_empty block.lines then [] else block ∷ []

module _ (old_lines new_lines : Lines) (old_hashes new_hashes : Hashes) where
  -- The block of one hunk, if it has lines.
  unfoldable pub emit : List Change → (hunk_start hunk_end : ℕ) → List DiffBlock
  emit changes hunk_start hunk_end =
      keep_block (
        format_structured_hunk old_lines new_lines old_hashes new_hashes changes hunk_start
          hunk_end)

  -- The loop over the changes behind the first, inside a hunk. `changes` is the whole list.
  unfoldable pub blocks_from :
      (changes : List Change) → (hunk_start hunk_end : ℕ) → List Change → List DiffBlock
  blocks_from changes hunk_start hunk_end [] = emit changes hunk_start hunk_end
  blocks_from changes hunk_start hunk_end (c ∷ cs) =
      let joined = blocks_from changes hunk_start (hunk_end_of old_lines c) cs in
      let apart = blocks_from changes (hunk_start_of c) (hunk_end_of old_lines c) cs in
      if leb c.old_start (hunk_end + context_lines)
      then joined
      else emit changes hunk_start hunk_end ++ apart

  unfoldable pub blocks_of : List Change → List DiffBlock
  blocks_of [] = []
  blocks_of (c ∷ cs) = blocks_from (c ∷ cs) (hunk_start_of c) (hunk_end_of old_lines c) cs

-- The lines of a new file, from line `i` on.
unfoldable pub new_file_lines : Hashes → (i : ℕ) → Lines → List DiffLine
new_file_lines hashes i [] = []
new_file_lines hashes i (l ∷ ls) =
    record {
      kind = insert;
      content = l;
      old_number = none;
      new_number = some (pos (suc i));
      hash = hashes (suc i);
    }
    ∷ new_file_lines hashes (suc i) ls

unfoldable pub generate_new_file_block : Lines → Hashes → DiffBlock
generate_new_file_block lines hashes = record {
  header = some (record {
    old_start = pos 0;
    old_count = pos 0;
    new_start = pos 1;
    new_count = pos (length lines);
  });
  old_start_line = pos 0;
  new_start_line = pos 1;
  lines = new_file_lines hashes 0 lines;
}

unfoldable pub inserted : List DiffLine → ℕ
inserted [] = 0
inserted (d ∷ ds) = elim d.kind [ insert ↦ suc (inserted ds) | _ ↦ inserted ds ]

unfoldable pub deleted : List DiffLine → ℕ
deleted [] = 0
deleted (d ∷ ds) = elim d.kind [ delete ↦ suc (deleted ds) | _ ↦ deleted ds ]

-- The counting loop over the blocks.
unfoldable pub lines_added_in : List DiffBlock → ℕ
lines_added_in [] = 0
lines_added_in (b ∷ bs) = inserted b.lines + lines_added_in bs

unfoldable pub lines_removed_in : List DiffBlock → ℕ
lines_removed_in [] = 0
lines_removed_in (b ∷ bs) = deleted b.lines + lines_removed_in bs

abbrev pub empty_summary : DiffSummary
empty_summary = record {
  total_edits = 0;
  operations = [];
  lines_added = 0;
  lines_removed = 0;
  net_change = pos 0;
}

-- The body behind the two calls of SplitLines.
unfoldable pub structured_diff : Bytes → Lines → Lines → Hashes → Hashes → DiffPreview
structured_diff path [] [] old_hashes new_hashes = record {
  path = path;
  summary = empty_summary;
  blocks = [];
}
structured_diff path [] (n ∷ ns) old_hashes new_hashes =
    let count = length (n ∷ ns) in
    record {
      path = path;
      summary = record {
        total_edits = 1;
        operations = ("insert", 1) ∷ [];
        lines_added = count;
        lines_removed = 0;
        net_change = pos count;
      };
      blocks = generate_new_file_block (n ∷ ns) new_hashes ∷ [];
    }
structured_diff path (o ∷ os) new_lines old_hashes new_hashes =
    let changes = find_changes (o ∷ os) new_lines in
    let blocks = blocks_of (o ∷ os) new_lines old_hashes new_hashes changes in
    let added = lines_added_in blocks in
    let removed = lines_removed_in blocks in
    if is_empty changes
    then record { path = path; summary = empty_summary; blocks = [] }
    else record {
      path = path;
      summary = record {
        total_edits = length changes;
        operations = [];
        lines_added = added;
        lines_removed = removed;
        net_change = sub_ℕ added removed;
      };
      blocks = blocks;
    }

unfoldable pub generate_structured_diff_with_hashes :
    (path old_content new_content : Bytes) → Hashes → Hashes → DiffPreview
generate_structured_diff_with_hashes path old_content new_content old_hashes new_hashes =
    structured_diff path (split_lines old_content) (split_lines new_content) old_hashes new_hashes

unfoldable pub generate_structured_diff : (path old_content new_content : Bytes) → DiffPreview
generate_structured_diff path old_content new_content =
    generate_structured_diff_with_hashes path old_content new_content (λ _. none) (λ _. none)
