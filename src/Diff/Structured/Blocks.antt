-- ===== src/Diff/Structured/Blocks.antt =====
-- Every block of a structured diff is a true hunk, and the blocks together hold all changes.
use native.Mathlib.Nat.{le_refl}
use kontekst.Prelude.Int.{pos_suc, pos, sub_ℕ}
use kontekst.Prelude.{
  ℕ, suc, ◌+◌, ◌-◌, ◌≤◌, ◌≡◌, refl, ap, ◌∙◌, List, ◌∷◌, some, length, All, if_ind, arith,
}
use kontekst.Diff.Lcs.{Lines}
use kontekst.Diff.Changes.{Change}
use kontekst.Diff.Changes.Script.{Leads, Leads-le}
use kontekst.Diff.Hunk.{
  DiffBlock, Hashes, filter_changes_in_range, compute_new_start, block_of, format_structured_hunk,
}
use kontekst.Diff.Hunk.Numbered.{old_side, new_side, numbered}
use kontekst.Diff.Hunk.Sides.{hunk_lines-Sides}
use kontekst.Diff.Hunk.Numbers.{new_count-eq, compute_new_start-eq}
use kontekst.Diff.Structured.{keep_block, emit, lines_added_in, lines_removed_in}
use kontekst.Diff.Split.{is_empty}
use kontekst.Diff.Structured.Totals.{length-numbered, sides_balance, empty_counts}

module _ (old_lines new_lines : Lines) where
  -- The block shows the old lines `old_from` up to `old_to` beside the new lines `new_from` up to
  -- `new_to`. Its numbers on the new side begin where those on the old side do.
  pub record IsHunk (b : DiffBlock) : Type 0 where
    pub old_from : ℕ
    pub old_to : ℕ
    pub new_from : ℕ
    pub new_to : ℕ
    pub old_order : old_from ≤ old_to
    pub old_fits : old_to ≤ length old_lines
    pub new_order : new_from ≤ new_to
    pub new_fits : new_to ≤ length new_lines
    pub header :
        b.header
        ≡ some (record {
          old_start = pos (suc old_from);
          old_count = pos (old_to - old_from);
          new_start = pos (suc old_from);
          new_count = pos (new_to - new_from);
        })
    pub old_start_line : b.old_start_line ≡ pos (suc old_from)
    pub new_start_line : b.new_start_line ≡ pos (suc old_from)
    pub old_shown :
        old_side b.lines ≡ numbered old_lines old_from (old_to - old_from) (pos old_from)
    pub new_shown :
        new_side b.lines ≡ numbered new_lines new_from (new_to - new_from) (pos old_from)

module _ (old_lines new_lines : Lines) (old_hashes new_hashes : Hashes) where
  abbrev block_at : List Change → ℕ → ℕ → DiffBlock
  block_at = format_structured_hunk old_lines new_lines old_hashes new_hashes

  -- Formatting the changes of one group.
  format-IsHunk :
      (changes : List Change) (k l gap i j : ℕ) (c : Change) (cs : List Change)
      → filter_changes_in_range changes i k ≡ c ∷ cs
      → Leads old_lines new_lines k l gap i j (c ∷ cs)
      → k ≤ length old_lines
      → l ≤ length new_lines
      → IsHunk old_lines new_lines (block_at changes i k)
        × (length (old_side (block_at changes i k).lines) ≡ k - i)
        × (length (new_side (block_at changes i k).lines) ≡ l - j)
  unfolding format_structured_hunk block_of
  format-IsHunk changes k l gap i j c cs e s p q =
      let (old_order, new_order) = Leads-le old_lines new_lines k l gap i j (c ∷ cs) s in
      let start : compute_new_start (c ∷ cs) i ≡ pos i =
        compute_new_start-eq old_lines new_lines k l gap i j c cs s in
      let count : sub_ℕ k i ≡ pos (k - i) = ground arith in
      let (olds, news) =
        hunk_lines-Sides old_lines new_lines old_hashes new_hashes _ k l gap i j (pos i) (c ∷ cs) s
          (le_refl _) in
      rw (e, start, count, new_count-eq old_lines new_lines k l gap i j (c ∷ cs) s, pos_suc i)
        (
          record {
            old_from = i;
            old_to = k;
            new_from = j;
            new_to = l;
            old_order = old_order;
            old_fits = p;
            new_order = new_order;
            new_fits = q;
            header = refl;
            old_start_line = refl;
            new_start_line = refl;
            old_shown = olds;
            new_shown = news;
          },
          ap length olds ∙ length-numbered old_lines i (k - i) (pos i),
          ap length news ∙ length-numbered new_lines j (l - j) (pos i),
        )

  -- The blocks are hunks, and what they add to the old side they remove from the new one.
  abbrev pub Covers : (k l i j : ℕ) → List DiffBlock → Type 0
  Covers k l i j bs =
      All (IsHunk old_lines new_lines) bs
      × (lines_added_in bs + (k - i) ≡ lines_removed_in bs + (l - j))

  keep_block-Covers :
      (k l i j : ℕ) (b : DiffBlock)
      → IsHunk old_lines new_lines b
      → length (old_side b.lines) ≡ k - i
      → length (new_side b.lines) ≡ l - j
      → Covers k l i j (keep_block b)
  unfolding keep_block lines_added_in lines_removed_in
  keep_block-Covers k l i j b hunk olds news =
      if_ind (Covers k l i j) (is_empty b.lines)
        (λ none_left.
          (tt, omega (arith, sides_balance b.lines, olds, news, empty_counts b.lines none_left)))
        (λ _. ((hunk, tt), omega (arith, sides_balance b.lines, olds, news)))

  pub emit-Covers :
      (changes : List Change) (k l gap i j : ℕ) (c : Change) (cs : List Change)
      → filter_changes_in_range changes i k ≡ c ∷ cs
      → Leads old_lines new_lines k l gap i j (c ∷ cs)
      → k ≤ length old_lines
      → l ≤ length new_lines
      → Covers k l i j (emit old_lines new_lines old_hashes new_hashes changes i k)
  unfolding emit
  emit-Covers changes k l gap i j c cs e s p q =
      let (hunk, olds, news) = format-IsHunk changes k l gap i j c cs e s p q in
      keep_block-Covers k l i j (block_at changes i k) hunk olds news
