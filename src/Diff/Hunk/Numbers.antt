-- ===== src/Diff/Hunk/Numbers.antt =====
-- The numbers in the header of a hunk.
use kontekst.Prelude.Int.{pos, pos_part, neg_part, ◌+ℤ◌, ◌-ℤ◌, int_laws, sub_ℕ_parts, +ℤ_zero}
use kontekst.Prelude.{ℕ, ◌-◌, ◌≡◌, List, [], ◌∷◌, ap, arith, ltb, false}
use kontekst.Diff.Lcs.{Lines}
use kontekst.Diff.Changes.{Change}
use kontekst.Diff.Changes.Script.{Leads}
use kontekst.Diff.Hunk.{compute_new_start, new_offset, removed_lines, added_lines}

module _ (old_lines new_lines : Lines) where
  pub new_count-eq :
      (k l gap i j : ℕ) (cs : List Change)
      → Leads old_lines new_lines k l gap i j cs
      → pos (k - i) -ℤ removed_lines cs +ℤ added_lines cs ≡ pos (l - j)
  unfolding removed_lines added_lines
  new_count-eq k l gap i j [] r = omega (int_laws, r.as_many, r.forward)
  new_count-eq k l gap i j (c ∷ cs) s =
      let run = s.0 in
      let rest = new_count-eq k l 1 c.old_end c.new_end cs s.7 in
      omega (
        int_laws,
        run.as_many,
        run.forward,
        sub_ℕ_parts c.old_end c.old_start,
        sub_ℕ_parts c.new_end c.new_start,
        ap pos_part rest,
        ap neg_part rest,
      )

  pub compute_new_start-eq :
      (k l gap i j : ℕ) (c : Change) (cs : List Change)
      → Leads old_lines new_lines k l gap i j (c ∷ cs)
      → compute_new_start (c ∷ cs) i ≡ pos i
  unfolding compute_new_start new_offset
  compute_new_start-eq k l gap i j c cs s =
      let front : ltb c.old_start i ≡ false = let run = s.0 in ground (arith, run.forward) in
      rw (front, +ℤ_zero)
