-- ===== src/Diff/Text/Printed.antt =====
-- The text diff prints the blocks of the structured diff.
use mathlib.Core.List.{append_assoc}
use kontekst.Prelude.Int.{ℤ, pos, sub_ℕ, ◌+ℤ◌, ◌-ℤ◌}
use kontekst.Prelude.{
  ℕ, zero, suc, ◌+◌, ◌-◌, ◌≡◌, refl, sym, ap, ap₂, ◌∙◌, Bool, true, false, List, [], ◌∷◌, ◌++◌,
  none, some, Bytes, length, ltb, ◌==◌, if◌then◌else◌,
}
use kontekst.Diff.Lcs.{Lines, line_at}
use kontekst.Diff.Changes.{Change}
use kontekst.Diff.Hunk.{
  Header, DiffLine, LineType, DiffBlock, Hashes, insert, delete, context, filter_changes_in_range,
  compute_new_start, removed_lines, added_lines, is_due, deletes, inserts, context_line,
  context_step, hunk_lines, block_of, format_structured_hunk,
}
use kontekst.Diff.Structured.{new_file_lines, generate_new_file_block}
use kontekst.Diff.Text.{
  header_text, signed_line, deletes_text, inserts_text, context_text, hunk_text, relevant_text,
  format_hunk, plus_lines, whole_file_text,
}

abbrev pub sign_of : LineType → ℕ
sign_of insert = 43
sign_of delete = 45
sign_of context = 32

unfoldable pub lines_text : List DiffLine → Bytes
lines_text [] = []
lines_text (d ∷ ds) = signed_line (sign_of d.kind) d.content ++ lines_text ds

-- The header, if there is one, and the lines with their signs.
unfoldable pub block_text : DiffBlock → Bytes
block_text block =
    elim block.header [ none ↦ [] | some h ↦ header_text h ] ++ lines_text block.lines

lines_text-append : (ds es : List DiffLine) → lines_text (ds ++ es) ≡ lines_text ds ++ lines_text es
unfolding lines_text
lines_text-append [] es = refl
lines_text-append (d ∷ ds) es =
    ap (λ (text : Bytes). signed_line (sign_of d.kind) d.content ++ text) (lines_text-append ds es)
    ∙ sym (append_assoc (signed_line (sign_of d.kind) d.content) (lines_text ds) (lines_text es))

lines_text-if :
    (b : Bool) (ds es : List DiffLine)
    → lines_text (if b then ds else es) ≡ (if b then lines_text ds else lines_text es)
lines_text-if true ds es = refl
lines_text-if false ds es = refl

module _ (old_lines new_lines : Lines) (old_hashes new_hashes : Hashes) where
  deletes-text :
      (i n : ℕ)
      → lines_text (deletes old_lines new_lines old_hashes new_hashes i n)
        ≡ deletes_text old_lines new_lines i n
  unfolding lines_text deletes deletes_text
  deletes-text i zero = refl
  deletes-text i (suc n) =
      ap (λ (text : Bytes). signed_line 45 (line_at old_lines i) ++ text) (deletes-text (suc i) n)

  inserts-text :
      (i n : ℕ) (new_pos : ℤ)
      → lines_text (inserts old_lines new_lines old_hashes new_hashes i n new_pos)
        ≡ inserts_text old_lines new_lines i n
  unfolding lines_text inserts inserts_text
  inserts-text i zero new_pos = refl
  inserts-text i (suc n) new_pos =
      ap (λ (text : Bytes). signed_line 43 (line_at new_lines i) ++ text)
        (inserts-text (suc i) n (new_pos +ℤ pos 1))

  context-text :
      (hunk_end : ℕ) (loop : ℕ → ℤ → List Change → List DiffLine)
      (text_loop : ℕ → List Change → Bytes) (old_pos : ℕ) (new_pos : ℤ) (changes : List Change)
      → ((p : ℕ) (q : ℤ) (cs : List Change) → lines_text (loop p q cs) ≡ text_loop p cs)
      → lines_text (
          context_step old_lines new_lines old_hashes new_hashes hunk_end loop old_pos new_pos
            changes)
        ≡ context_text old_lines new_lines hunk_end text_loop old_pos changes
  unfolding lines_text context_step context_text context_line
  context-text hunk_end loop text_loop old_pos new_pos changes same =
      lines_text-if (ltb old_pos hunk_end) _ []
      ∙ ap
          (λ (text : Bytes).
            if ltb old_pos hunk_end then signed_line 32 (line_at old_lines old_pos) ++ text else [])
          (same (suc old_pos) (new_pos +ℤ pos 1) changes)

  hunk_lines-text :
      (fuel hunk_end old_pos : ℕ) (new_pos : ℤ) (changes : List Change)
      → lines_text (
          hunk_lines old_lines new_lines old_hashes new_hashes fuel hunk_end old_pos new_pos
            changes)
        ≡ hunk_text old_lines new_lines fuel hunk_end old_pos changes
  unfolding lines_text hunk_lines hunk_text
  hunk_lines-text zero hunk_end old_pos new_pos changes = refl
  hunk_lines-text (suc fuel) hunk_end old_pos new_pos [] =
      context-text hunk_end _ _ old_pos new_pos [] (hunk_lines-text fuel hunk_end)
  hunk_lines-text (suc fuel) hunk_end old_pos new_pos (c ∷ cs) =
      let deleted = c.old_end - c.old_start in
      let added = c.new_end - c.new_start in
      let old_pos' = old_pos + deleted in
      let new_pos' = new_pos +ℤ pos added in
      lines_text-if (is_due old_pos c) _ _
      ∙ ap₂ (λ (changed unchanged : Bytes). if is_due old_pos c then changed else unchanged)
          (lines_text-append (deletes old_lines new_lines old_hashes new_hashes c.old_start deleted)
              _
            ∙ ap₂ (λ (front back : Bytes). front ++ back) (deletes-text c.old_start deleted)
                (lines_text-append
                    (inserts old_lines new_lines old_hashes new_hashes c.new_start added new_pos) _
                  ∙ ap₂ (λ (front back : Bytes). front ++ back)
                      (inserts-text c.new_start added new_pos)
                      (lines_text-if (c.old_start == c.old_end) _ _
                        ∙ ap₂ (λ (x y : Bytes). if c.old_start == c.old_end then x else y)
                            (hunk_lines-text fuel hunk_end old_pos' new_pos' cs)
                            (context-text hunk_end _ _ old_pos' new_pos' cs
                              (hunk_lines-text fuel hunk_end)))))
          (context-text hunk_end _ _ old_pos new_pos (c ∷ cs) (hunk_lines-text fuel hunk_end))

  relevant-text :
      (relevant : List Change) (hunk_start hunk_end : ℕ)
      → block_text (block_of old_lines new_lines old_hashes new_hashes relevant hunk_start hunk_end)
        ≡ relevant_text old_lines new_lines relevant hunk_start hunk_end
  unfolding block_text block_of relevant_text lines_text
  relevant-text [] hunk_start hunk_end = refl
  relevant-text (c ∷ cs) hunk_start hunk_end =
      let new_start = compute_new_start (c ∷ cs) hunk_start in
      let header : Header = record {
        old_start = pos (suc hunk_start);
        old_count = sub_ℕ hunk_end hunk_start;
        new_start = new_start +ℤ pos 1;
        new_count = sub_ℕ hunk_end hunk_start -ℤ removed_lines (c ∷ cs) +ℤ added_lines (c ∷ cs);
      } in
      ap (λ (text : Bytes). header_text header ++ text)
        (hunk_lines-text (suc ((hunk_end - hunk_start) + length (c ∷ cs))) hunk_end hunk_start
          new_start (c ∷ cs))

  -- A hunk of the text diff is the block of the structured diff at the same place, printed: its header and its lines with their signs.
  pub format_hunk-block_text :
      (changes : List Change) (hunk_start hunk_end : ℕ)
      → format_hunk old_lines new_lines changes hunk_start hunk_end
        ≡ block_text (
            format_structured_hunk old_lines new_lines old_hashes new_hashes changes hunk_start
              hunk_end)
  unfolding format_hunk format_structured_hunk
  format_hunk-block_text changes hunk_start hunk_end =
      sym (relevant-text (filter_changes_in_range changes hunk_start hunk_end) hunk_start hunk_end)

new_file_lines-text :
    (hashes : Hashes) (i : ℕ) (lines : Lines)
    → lines_text (new_file_lines hashes i lines) ≡ plus_lines lines
unfolding lines_text new_file_lines plus_lines
new_file_lines-text hashes i [] = refl
new_file_lines-text hashes i (l ∷ ls) =
    ap (λ (text : Bytes). signed_line 43 l ++ text) (new_file_lines-text hashes (suc i) ls)

-- The text of a whole new file is its block, printed.
pub whole_file_text-block_text :
    (lines : Lines) (hashes : Hashes)
    → whole_file_text lines ≡ block_text (generate_new_file_block lines hashes)
unfolding whole_file_text block_text generate_new_file_block
whole_file_text-block_text lines hashes =
    ap
      (λ (text : Bytes).
        header_text (record {
          old_start = pos 0;
          old_count = pos 0;
          new_start = pos 1;
          new_count = pos (length lines);
        })
        ++ text)
      (sym (new_file_lines-text hashes 0 lines))
