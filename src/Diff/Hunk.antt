-- ===== src/Diff/Hunk.antt =====
-- One hunk of a structured diff: formatStructuredHunk and the functions it calls, of
-- internal/tool/diff/diff.go. `int` values that may be negative are integers here.
pub mod Numbered
pub mod Sides
pub mod Numbers
use kontekst.Prelude.Int.{ℤ, pos, sub_ℕ, ◌+ℤ◌, ◌-ℤ◌}
use kontekst.Prelude.{
  ℕ, zero, suc, ◌+◌, ◌-◌, Bool, ◌||◌, ◌&&◌, List, [], ◌∷◌, ◌++◌, Option, none, some, Bytes, length,
  ltb, leb, ◌==◌, if◌then◌else◌,
}
use kontekst.Diff.Lcs.{Lines, line_at}
use kontekst.Diff.Changes.{Change}

pub data LineType : Type 0 where
  insert delete context : LineType

pub record DiffLine : Type 0 where
  pub kind : LineType
  pub content : Bytes
  pub old_number : Option ℤ
  pub new_number : Option ℤ
  pub hash : Option Bytes

-- The four numbers of the header "@@ -a,b +c,d @@".
pub record Header : Type 0 where
  pub old_start : ℤ
  pub old_count : ℤ
  pub new_start : ℤ
  pub new_count : ℤ

-- `header` is `none` for the empty string.
pub record DiffBlock : Type 0 where
  pub header : Option Header
  pub old_start_line : ℤ
  pub new_start_line : ℤ
  pub lines : List DiffLine

-- DiffBlock{}
abbrev pub no_block : DiffBlock
no_block = record { header = none; old_start_line = pos 0; new_start_line = pos 0; lines = [] }

-- A `map[int]string` from line numbers to hashes; a nil map has no key.
abbrev pub Hashes : Type 0
Hashes = ℕ → Option Bytes

unfoldable pub filter_changes_in_range : List Change → (start end : ℕ) → List Change
filter_changes_in_range [] start end = []
filter_changes_in_range (c ∷ cs) start end =
    let result = filter_changes_in_range cs start end in
    if leb start c.old_end && leb c.old_start end then c ∷ result else result

-- The offset of the changes in front of the hunk, up to the first that is not in front of it.
unfoldable pub new_offset : List Change → ℕ → ℤ
new_offset [] hunk_start = pos 0
new_offset (c ∷ cs) hunk_start =
    let removed = sub_ℕ c.old_end c.old_start in
    let added = sub_ℕ c.new_end c.new_start in
    let offset = (added -ℤ removed) +ℤ new_offset cs hunk_start in
    if ltb c.old_start hunk_start then offset else pos 0

unfoldable pub compute_new_start : List Change → ℕ → ℤ
compute_new_start changes hunk_start = pos hunk_start +ℤ new_offset changes hunk_start

unfoldable pub removed_lines : List Change → ℤ
removed_lines [] = pos 0
removed_lines (c ∷ cs) = sub_ℕ c.old_end c.old_start +ℤ removed_lines cs

unfoldable pub added_lines : List Change → ℤ
added_lines [] = pos 0
added_lines (c ∷ cs) = sub_ℕ c.new_end c.new_start +ℤ added_lines cs

-- Whether the body takes the next change at this position.
abbrev pub is_due : ℕ → Change → Bool
is_due old_pos c = old_pos == c.old_start || (c.old_start == c.old_end && leb c.old_start old_pos)

module _ (old_lines new_lines : Lines) (old_hashes new_hashes : Hashes) where
  -- The loop over the old lines of a change, from line `i` on, `n` times.
  unfoldable pub deletes : (i n : ℕ) → List DiffLine
  deletes i zero = []
  deletes i (suc n) =
      record {
        kind = delete;
        content = line_at old_lines i;
        old_number = some (pos (suc i));
        new_number = none;
        hash = old_hashes (suc i);
      }
      ∷ deletes (suc i) n

  -- The loop over the new lines of a change, from line `i` on, `n` times.
  unfoldable pub inserts : (i n : ℕ) (new_pos : ℤ) → List DiffLine
  inserts i zero new_pos = []
  inserts i (suc n) new_pos =
      record {
        kind = insert;
        content = line_at new_lines i;
        old_number = none;
        new_number = some (new_pos +ℤ pos 1);
        hash = new_hashes (suc i);
      }
      ∷ inserts (suc i) n (new_pos +ℤ pos 1)

  unfoldable pub context_line : (old_pos : ℕ) (new_pos : ℤ) → DiffLine
  context_line old_pos new_pos = record {
    kind = context;
    content = line_at old_lines old_pos;
    old_number = some (pos (suc old_pos));
    new_number = some (new_pos +ℤ pos 1);
    hash = old_hashes (suc old_pos);
  }

  -- The end of the loop's body: a line of context and the next round, or a break.
  unfoldable pub context_step :
      (hunk_end : ℕ) → (ℕ → ℤ → List Change → List DiffLine) → ℕ → ℤ → List Change → List DiffLine
  context_step hunk_end loop old_pos new_pos changes =
      if ltb old_pos hunk_end
      then context_line old_pos new_pos ∷ loop (suc old_pos) (new_pos +ℤ pos 1) changes
      else []

  -- The `for` loop on fuel. Its condition fails only where the body would break at once.
  unfoldable pub hunk_lines :
      (fuel hunk_end old_pos : ℕ) (new_pos : ℤ) → List Change → List DiffLine
  hunk_lines zero hunk_end old_pos new_pos changes = []
  hunk_lines (suc fuel) hunk_end old_pos new_pos [] =
      context_step hunk_end (hunk_lines fuel hunk_end) old_pos new_pos []
  hunk_lines (suc fuel) hunk_end old_pos new_pos (c ∷ cs) =
      let deleted = c.old_end - c.old_start in
      let added = c.new_end - c.new_start in
      let old_pos' = old_pos + deleted in
      let new_pos' = new_pos +ℤ pos added in
      let continue = hunk_lines fuel hunk_end old_pos' new_pos' cs in
      let changed =
        deletes c.old_start deleted
        ++ (inserts c.new_start added new_pos
            ++ (if c.old_start == c.old_end
                then continue
                else context_step hunk_end (hunk_lines fuel hunk_end) old_pos' new_pos' cs)) in
      if is_due old_pos c
      then changed
      else context_step hunk_end (hunk_lines fuel hunk_end) old_pos new_pos (c ∷ cs)

  -- The block of the relevant changes.
  unfoldable pub block_of : (relevant : List Change) → (hunk_start hunk_end : ℕ) → DiffBlock
  block_of [] hunk_start hunk_end = no_block
  block_of (c ∷ cs) hunk_start hunk_end =
      let relevant = c ∷ cs in
      let old_count = sub_ℕ hunk_end hunk_start in
      let new_count = old_count -ℤ removed_lines relevant +ℤ added_lines relevant in
      let new_start = compute_new_start relevant hunk_start in
      let fuel = suc ((hunk_end - hunk_start) + length relevant) in
      record {
        header = some (record {
          old_start = pos (suc hunk_start);
          old_count = old_count;
          new_start = new_start +ℤ pos 1;
          new_count = new_count;
        });
        old_start_line = pos (suc hunk_start);
        new_start_line = new_start +ℤ pos 1;
        lines = hunk_lines fuel hunk_end hunk_start new_start relevant;
      }

  unfoldable pub format_structured_hunk : List Change → (hunk_start hunk_end : ℕ) → DiffBlock
  format_structured_hunk changes hunk_start hunk_end =
      block_of (filter_changes_in_range changes hunk_start hunk_end) hunk_start hunk_end
