-- ===== src/Diff/Lcs/Optimal.antt =====
-- computeLCS finds a longest common subsequence.
use kontekst.Prelude.{ℕ, zero, suc, ◌≤◌, ◌≡◌, bytes_eq_refl, length, arith}
use kontekst.Diff.Lcs.{Lines, line_at, compute_lcs}
use kontekst.Diff.Lcs.Table.{lcs_length}
use kontekst.Diff.Lcs.Walk.{Ascends, compute_lcs-Ascends, compute_lcs-length}

module _ (old_lines new_lines : Lines) where
  -- A common subsequence, of length `k`, of the first `i` old and the first `j` new lines.
  pub data Common : ℕ → ℕ → ℕ → Type 0 where
    start : Common 0 0 0
    skip_old : {i j k : ℕ} → Common i j k → Common (suc i) j k
    skip_new : {i j k : ℕ} → Common i j k → Common i (suc j) k
    pair :
        {i j k : ℕ}
        → line_at old_lines i ≡ line_at new_lines j
        → Common i j k
        → Common (suc i) (suc j) (suc k)

  abbrev best : ℕ → ℕ → ℕ
  best = lcs_length old_lines new_lines

  best_step :
      (i j : ℕ)
      → (best i j ≤ best (suc i) j)
        × (best (suc i) j ≤ suc (best i j))
        × (best i j ≤ best i (suc j))
        × (best i (suc j) ≤ suc (best i j))
        × (best (suc i) (suc j) ≤ suc (best i j))
  unfolding lcs_length
  best_step zero zero = ground arith
  best_step zero (suc j) = ground (arith, best_step zero j)
  best_step (suc i) zero = ground (arith, best_step i zero)
  best_step (suc i) (suc j) =
      ground (arith, best_step i j, best_step i (suc j), best_step (suc i) j)

  Common-le-best : {i j k : ℕ} → Common i j k → k ≤ best i j
  unfolding lcs_length
  Common-le-best start = omega arith
  Common-le-best (skip_old {i} {j} c) = omega (arith, best_step i j, Common-le-best c)
  Common-le-best (skip_new {i} {j} c) = omega (arith, best_step i j, Common-le-best c)
  Common-le-best (pair {i} {j} e c) = rw (e, bytes_eq_refl) (omega (arith, Common-le-best c))

-- computeLCS returns a common subsequence of the two files, than which none is longer.
pub compute_lcs_optimal :
    (old_lines new_lines : Lines) {k : ℕ}
    → Common old_lines new_lines (length old_lines) (length new_lines) k
    → Ascends old_lines new_lines 0 0 (compute_lcs old_lines new_lines)
      × (k ≤ length (compute_lcs old_lines new_lines))
compute_lcs_optimal old_lines new_lines c = (
  compute_lcs-Ascends old_lines new_lines,
  rw (compute_lcs-length old_lines new_lines) (Common-le-best old_lines new_lines c),
)
