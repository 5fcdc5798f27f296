-- ===== src/Diff/Lcs/Walk.antt =====
-- The walk back through the table in computeLCS: what it collects, in which order, and how much.
use mathlib.Core.List.{reverse-append, append_assoc, append-nil}
use kontekst.Prelude.{
  ℕ, zero, suc, ◌≤◌, ◌<◌, ◌≡◌, refl, ◌∙◌, List, [], ◌∷◌, ◌++◌, reverse, bytes_eq, bytes_eq→eq,
  if_ind, ltb, length, length-reverse, arith,
}
use kontekst.Diff.Lcs.{Lines, line_at, LcsMatch, fill_table, dp_at, walk_back, compute_lcs}
use kontekst.Diff.Lcs.Table.{lcs_length, fill_table-eq-lcs_length}

module _ (old_lines new_lines : Lines) where
  -- Matches of equal lines below `i` and `j`, from the last to the first.
  abbrev Descends : ℕ → ℕ → List LcsMatch → Type 0
  Descends i j [] = Unit
  Descends i j (m ∷ ms) =
      (m.old_index < i)
      × (m.new_index < j)
      × (line_at old_lines m.old_index ≡ line_at new_lines m.new_index)
      × Descends m.old_index m.new_index ms

  -- Matches of equal lines inside the files, from `i` and `j` on, in increasing order of both.
  abbrev pub Ascends : ℕ → ℕ → List LcsMatch → Type 0
  Ascends i j [] = (i ≤ length old_lines) × (j ≤ length new_lines)
  Ascends i j (m ∷ ms) =
      (i ≤ m.old_index)
      × (j ≤ m.new_index)
      × (line_at old_lines m.old_index ≡ line_at new_lines m.new_index)
      × Ascends (suc m.old_index) (suc m.new_index) ms

  Descends-mono :
      {i j k l : ℕ} (ms : List LcsMatch) → i ≤ k → j ≤ l → Descends i j ms → Descends k l ms
  Descends-mono [] p q d = tt
  Descends-mono (m ∷ ms) p q d = (omega arith, omega arith, d.2, d.3)

  Ascends-mono :
      {i j k l : ℕ} (ms : List LcsMatch) → k ≤ i → l ≤ j → Ascends i j ms → Ascends k l ms
  Ascends-mono [] p q d = (omega arith, omega arith)
  Ascends-mono (m ∷ ms) p q d = (omega arith, omega arith, d.2, d.3)

  pub Ascends-le :
      {i j : ℕ} (ms : List LcsMatch)
      → Ascends i j ms
      → (i ≤ length old_lines) × (j ≤ length new_lines)
  Ascends-le [] a = a
  Ascends-le (m ∷ ms) a =
      let later = Ascends-le {i = suc m.old_index} {j = suc m.new_index} ms a.3 in omega arith

  walk_back-Descends :
      (dp : List (List ℕ)) (i j : ℕ) → Descends i j (walk_back old_lines new_lines dp i j)
  unfolding walk_back
  walk_back-Descends dp zero j = tt
  walk_back-Descends dp (suc i) zero = tt
  walk_back-Descends dp (suc i) (suc j) =
      if_ind (Descends (suc i) (suc j)) (bytes_eq (line_at old_lines i) (line_at new_lines j))
        (λ same. (omega arith, omega arith, bytes_eq→eq _ _ same, walk_back-Descends dp i j))
        (λ _.
          if_ind (Descends (suc i) (suc j)) (ltb (dp_at dp (suc i) j) (dp_at dp i (suc j)))
            (λ _.
              Descends-mono {i = i} {j = suc j} (walk_back old_lines new_lines dp i (suc j))
                (omega arith) (omega arith) (walk_back-Descends dp i (suc j)))
            (λ _.
              Descends-mono {i = suc i} {j = j} (walk_back old_lines new_lines dp (suc i) j)
                (omega arith) (omega arith) (walk_back-Descends dp (suc i) j)))

  reverse-Ascends :
      (i j : ℕ) (ms done : List LcsMatch)
      → Descends i j ms
      → Ascends i j done
      → Ascends 0 0 (reverse ms ++ done)
  reverse-Ascends i j [] done d a = Ascends-mono {i = i} {j = j} done (omega arith) (omega arith) a
  reverse-Ascends i j (m ∷ ms) done d a =
      rw (reverse-append (m ∷ []) ms, append_assoc)
        (reverse-Ascends m.old_index m.new_index ms (m ∷ done) d.3 (
          omega arith,
          omega arith,
          d.2,
          Ascends-mono {i = i} {j = j} done (omega arith) (omega arith) a,
        ))

  walk_back-length :
      (i j : ℕ)
      → i ≤ length old_lines
      → j ≤ length new_lines
      → length (walk_back old_lines new_lines (fill_table old_lines new_lines) i j)
        ≡ lcs_length old_lines new_lines i j
  unfolding walk_back lcs_length
  walk_back-length zero j h b = refl
  walk_back-length (suc i) zero h b = refl
  walk_back-length (suc i) (suc j) h b = ground (
    arith,
    walk_back-length i j (omega arith) (omega arith),
    walk_back-length i (suc j) (omega arith) b,
    walk_back-length (suc i) j h (omega arith),
    fill_table-eq-lcs_length old_lines new_lines i (suc j) (omega arith) b,
    fill_table-eq-lcs_length old_lines new_lines (suc i) j h (omega arith),
  )

-- What computeLCS returns are pairs of equal lines inside both files, strictly increasing in the
-- old and in the new index.
pub compute_lcs-Ascends :
    (old_lines new_lines : Lines)
    → Ascends old_lines new_lines 0 0 (compute_lcs old_lines new_lines)
unfolding compute_lcs
compute_lcs-Ascends [] new_lines = (omega arith, omega arith)
compute_lcs-Ascends (x ∷ xs) [] = (omega arith, omega arith)
compute_lcs-Ascends (x ∷ xs) (y ∷ ys) =
    let old_lines = x ∷ xs in
    let new_lines = y ∷ ys in
    rw (append-nil (compute_lcs old_lines new_lines)) at (
      reverse-Ascends old_lines new_lines (length old_lines) (length new_lines) _ []
        (walk_back-Descends old_lines new_lines (fill_table old_lines new_lines) (length old_lines)
          (length new_lines))
        (omega arith, omega arith))

pub compute_lcs-length :
    (old_lines new_lines : Lines)
    → length (compute_lcs old_lines new_lines)
      ≡ lcs_length old_lines new_lines (length old_lines) (length new_lines)
unfolding compute_lcs lcs_length
compute_lcs-length [] new_lines = refl
compute_lcs-length (x ∷ xs) [] = refl
compute_lcs-length (x ∷ xs) (y ∷ ys) =
    length-reverse _
    ∙ walk_back-length (x ∷ xs) (y ∷ ys) (length (x ∷ xs)) (length (y ∷ ys)) (omega arith)
        (omega arith)
