-- ===== src/Diff/Structured/Totals.antt =====
-- Counting the lines of a block.
use kontekst.Prelude.Int.{ℤ}
use kontekst.Prelude.{ℕ, suc, zero, ◌+◌, ◌≡◌, refl, List, [], ◌∷◌, length, true, arith}
use kontekst.Diff.Lcs.{Lines}
use kontekst.Diff.Split.{is_empty}
use kontekst.Diff.Hunk.{DiffLine}
use kontekst.Diff.Hunk.Numbered.{old_side, new_side, numbered}
use kontekst.Diff.Structured.{inserted, deleted}

pub length-numbered : (lines : Lines) (i n : ℕ) (first : ℤ) → length (numbered lines i n first) ≡ n
length-numbered lines i zero first = refl
length-numbered lines i (suc n) first = omega (arith, length-numbered lines (suc i) n)

pub sides_balance :
    (ds : List DiffLine) → inserted ds + length (old_side ds) ≡ deleted ds + length (new_side ds)
unfolding inserted deleted old_side new_side
sides_balance [] = refl
sides_balance (d ∷ ds) = ground (arith, sides_balance ds)

pub empty_counts : (ds : List DiffLine) → is_empty ds ≡ true → (inserted ds ≡ 0) × (deleted ds ≡ 0)
unfolding inserted deleted
empty_counts [] h = (refl, refl)
empty_counts (d ∷ ds) h = cc
