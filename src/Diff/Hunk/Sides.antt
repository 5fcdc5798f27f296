-- ===== src/Diff/Hunk/Sides.antt =====
-- The two sides of a hunk: its context and deleted lines are the old lines that it spans, and its
-- context and inserted lines are the new ones, both numbered in order.
use mathlib.Core.Path.{subst₂}
use kontekst.Prelude.Int.{ℤ, pos, ◌+ℤ◌, pos_suc, int_laws}
use kontekst.Prelude.{
  ℕ, zero, suc, ◌+◌, ◌-◌, ◌≤◌, ◌<◌, ◌≡◌, refl, List, [], ◌∷◌, ◌++◌, some, length, if_ind, cons_cong,
  ltb, ltb→lt, tests, ◌==◌, if◌then◌else◌, arith,
}
use kontekst.Diff.Lcs.{Lines, line_at}
use kontekst.Diff.Changes.{Change}
use kontekst.Diff.Changes.Script.{Leads, Leads-tail, Leads-end}
use kontekst.Diff.Hunk.{
  DiffLine, Hashes, deletes, inserts, context_line, context_step, is_due, hunk_lines,
}
use kontekst.Diff.Hunk.Numbered.{
  old_side, new_side, numbered, old_side-append, new_side-append, numbered_join,
}

module _ (old_lines new_lines : Lines) (old_hashes new_hashes : Hashes) where
  old_side-deletes :
      (i n : ℕ)
      → old_side (deletes old_lines new_lines old_hashes new_hashes i n)
        ≡ numbered old_lines i n (pos i)
  unfolding old_side deletes ◌+ℤ◌
  old_side-deletes i zero = refl
  old_side-deletes i (suc n) =
      rw (pos_suc i)
        (cons_cong (some (pos (suc i)), line_at old_lines i) (old_side-deletes (suc i) n))

  new_side-deletes :
      (i n : ℕ) → new_side (deletes old_lines new_lines old_hashes new_hashes i n) ≡ []
  unfolding new_side deletes
  new_side-deletes i zero = refl
  new_side-deletes i (suc n) = new_side-deletes (suc i) n

  old_side-inserts :
      (i n : ℕ) (new_pos : ℤ)
      → old_side (inserts old_lines new_lines old_hashes new_hashes i n new_pos) ≡ []
  unfolding old_side inserts
  old_side-inserts i zero new_pos = refl
  old_side-inserts i (suc n) new_pos = old_side-inserts (suc i) n (new_pos +ℤ pos 1)

  new_side-inserts :
      (i n : ℕ) (new_pos : ℤ)
      → new_side (inserts old_lines new_lines old_hashes new_hashes i n new_pos)
        ≡ numbered new_lines i n new_pos
  unfolding new_side inserts
  new_side-inserts i zero new_pos = refl
  new_side-inserts i (suc n) new_pos =
      cons_cong (some (new_pos +ℤ pos 1), line_at new_lines i)
        (new_side-inserts (suc i) n (new_pos +ℤ pos 1))

  -- The lines `ds` show the old lines `i` up to `k`, and the new lines `j` up to `l`, these
  -- numbered from behind `new_pos`.
  abbrev pub Sides : (k l i j : ℕ) (new_pos : ℤ) → List DiffLine → Type 0
  Sides k l i j new_pos ds =
      (old_side ds ≡ numbered old_lines i (k - i) (pos i))
      × (new_side ds ≡ numbered new_lines j (l - j) new_pos)

  Sides-at :
      (k l : ℕ) {i j i' j' : ℕ} (new_pos : ℤ) (ds : List DiffLine)
      → i ≡ i'
      → j ≡ j'
      → Sides k l i j new_pos ds
      → Sides k l i' j' new_pos ds
  Sides-at k l new_pos ds p q s = subst₂ (λ a b. Sides k l a b new_pos ds) p q s

  context_step-Sides :
      (loop : ℕ → ℤ → List Change → List DiffLine) (k l i j : ℕ) (new_pos : ℤ) (cs : List Change)
      → Leads old_lines new_lines k l 1 i j cs
      → (i < k → Sides k l (suc i) (suc j) (new_pos +ℤ pos 1) (loop (suc i) (new_pos +ℤ pos 1) cs))
      → Sides k l i j new_pos
          (context_step old_lines new_lines old_hashes new_hashes k loop i new_pos cs)
  unfolding context_step context_line old_side new_side
  context_step-Sides loop k l i j new_pos cs s rest =
      if_ind (Sides k l i j new_pos) (ltb i k)
        (λ more.
          let (tail, same, behind) = Leads-tail old_lines new_lines cs s (ltb→lt i k more) in
          let (olds, news) = rest (ltb→lt i k more) in
          let old_count : k - i ≡ suc (k - suc i) = omega tests in
          let new_count : l - j ≡ suc (l - suc j) = omega arith in
          rw (old_count, new_count, same, pos_suc i)
            (
              cons_cong (some (pos (suc i)), line_at new_lines j) olds,
              cons_cong (some (new_pos +ℤ pos 1), line_at new_lines j) news,
            ))
        (λ done.
          let past : k ≤ i = ground arith in
          let no_old : k - i ≡ 0 = omega arith in
          let no_new : l - j ≡ 0 = omega (arith, Leads-end old_lines new_lines cs s past) in
          rw (no_old, no_new) (refl, refl))

  -- The lines of one change, and lines behind it.
  change-Sides :
      (c : Change) (k l : ℕ) (new_pos : ℤ) (ds : List DiffLine)
      → c.old_start ≤ c.old_end
      → c.new_start ≤ c.new_end
      → c.old_end ≤ k
      → c.new_end ≤ l
      → Sides k l c.old_end c.new_end (new_pos +ℤ pos (c.new_end - c.new_start)) ds
      → Sides k l c.old_start c.new_start new_pos (
          deletes old_lines new_lines old_hashes new_hashes c.old_start (c.old_end - c.old_start)
          ++ (inserts old_lines new_lines old_hashes new_hashes c.new_start
                (c.new_end - c.new_start)
                new_pos
              ++ ds))
  change-Sides c k l new_pos ds p q p' q' (olds, news) =
      let deleted =
        deletes old_lines new_lines old_hashes new_hashes c.old_start (c.old_end - c.old_start) in
      let added =
        inserts old_lines new_lines old_hashes new_hashes c.new_start (c.new_end - c.new_start)
          new_pos in
      (
        rw
            (
              old_side-append deleted (added ++ ds),
              old_side-append added ds,
              old_side-deletes c.old_start (c.old_end - c.old_start),
              old_side-inserts c.new_start (c.new_end - c.new_start) new_pos,
              olds,
            )
            (numbered_join old_lines c.old_start c.old_end k _ _ p p' (omega int_laws)),
        rw
            (
              new_side-append deleted (added ++ ds),
              new_side-append added ds,
              new_side-deletes c.old_start (c.old_end - c.old_start),
              new_side-inserts c.new_start (c.new_end - c.new_start) new_pos,
              news,
            )
            (numbered_join new_lines c.new_start c.new_end l _ _ q q' refl),
      )

  -- What the body does behind a change, wherever the loop goes on.
  behind-Sides :
      (loop : ℕ → ℤ → List Change → List DiffLine) (k l old_pos : ℕ) (new_pos : ℤ) (c : Change)
      (cs : List Change)
      → old_pos ≡ c.old_end
      → Leads old_lines new_lines k l 1 c.old_end c.new_end cs
      → ((gap i j : ℕ) (first : ℤ)
          → c.old_end ≤ i
          → Leads old_lines new_lines k l gap i j cs
          → Sides k l i j first (loop i first cs))
      → Sides k l c.old_end c.new_end new_pos (
          if c.old_start == c.old_end
          then loop old_pos new_pos cs
          else context_step old_lines new_lines old_hashes new_hashes k loop old_pos new_pos cs)
  behind-Sides loop k l old_pos new_pos c cs e s ih = rw e (
      if_ind (Sides k l c.old_end c.new_end new_pos) (c.old_start == c.old_end)
        (λ _. ih 1 c.old_end c.new_end new_pos (omega arith) s)
        (λ _. context_step-Sides loop k l c.old_end c.new_end new_pos cs s (λ more.
          ih 0 (suc c.old_end) (suc c.new_end) (new_pos +ℤ pos 1) (omega arith)
            (Leads-tail old_lines new_lines cs s more).0)))

  pub hunk_lines-Sides :
      (fuel k l gap i j : ℕ) (new_pos : ℤ) (cs : List Change)
      → Leads old_lines new_lines k l gap i j cs
      → (k - i) + length cs < fuel
      → Sides k l i j new_pos
          (hunk_lines old_lines new_lines old_hashes new_hashes fuel k i new_pos cs)
  unfolding hunk_lines
  hunk_lines-Sides zero k l gap i j new_pos cs s h = elim h [ ]
  hunk_lines-Sides (suc fuel) k l gap i j new_pos [] s h =
      context_step-Sides (hunk_lines old_lines new_lines old_hashes new_hashes fuel k) k l i j
        new_pos [] s
        (λ more.
          hunk_lines-Sides fuel k l 0 (suc i) (suc j) (new_pos +ℤ pos 1) []
            (Leads-tail old_lines new_lines [] s more).0 (omega arith))
  hunk_lines-Sides (suc fuel) k l gap i j new_pos (c ∷ cs) s h =
      if_ind (Sides k l i j new_pos) (is_due i c)
        (λ due.
          let run = s.0 in
          let same_old : c.old_start ≡ i = ground (arith, run.forward) in
          let same_new : c.new_start ≡ j = omega (arith, run.as_many) in
          Sides-at k l new_pos _ same_old same_new (
            change-Sides c k l new_pos _ s.2 s.3 s.5 s.6 (
              behind-Sides (hunk_lines old_lines new_lines old_hashes new_hashes fuel k) k l
                (i + (c.old_end - c.old_start)) (new_pos +ℤ pos (c.new_end - c.new_start)) c cs
                (omega arith) s.7
                (λ gap' i' j' first past s'.
                  hunk_lines-Sides fuel k l gap' i' j' first cs s' (omega arith)))))
        (λ early.
          let later : Leads old_lines new_lines k l 1 i j (c ∷ cs) =
            (s.0, ground arith, s.2, s.3, s.4, s.5, s.6, s.7) in
          context_step-Sides (hunk_lines old_lines new_lines old_hashes new_hashes fuel k) k l i j
            new_pos (c ∷ cs) later
            (λ more.
              hunk_lines-Sides fuel k l 0 (suc i) (suc j) (new_pos +ℤ pos 1) (c ∷ cs)
                (Leads-tail old_lines new_lines (c ∷ cs) later more).0 (omega arith)))
