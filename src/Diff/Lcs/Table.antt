-- ===== src/Diff/Lcs/Table.antt =====
-- The table of computeLCS holds the lengths of the longest common subsequences of all prefixes.
use kontekst.Prelude.{
  ℕ, zero, suc, ◌+◌, ◌≤◌, ◌<◌, max, ◌≡◌, refl, List, [], ◌∷◌, bytes_eq, Bytes, length, get_or, drop,
  replicate, if◌then◌else◌, arith,
}
use kontekst.Diff.Lcs.{Lines, line_at, fill_cells, fill_rows, fill_table, dp_at}

-- The length of a longest common subsequence of the first `i` old and the first `j` new lines.
unfoldable pub lcs_length : Lines → Lines → ℕ → ℕ → ℕ
lcs_length old_lines new_lines zero j = 0
lcs_length old_lines new_lines (suc i) zero = 0
lcs_length old_lines new_lines (suc i) (suc j) =
    let matched = lcs_length old_lines new_lines i j in
    let up = lcs_length old_lines new_lines i (suc j) in
    let left = lcs_length old_lines new_lines (suc i) j in
    if bytes_eq (line_at old_lines i) (line_at new_lines j) then matched + 1 else max up left

get_or-drop_one : (i : ℕ) (xs : List ℕ) → get_or (drop 1 xs) i 0 ≡ get_or xs (suc i) 0
get_or-drop_one i [] = refl
get_or-drop_one i (x ∷ xs) = refl

-- A row is right if the row above it is.
fill_cells_lem :
    (x : Bytes) (ys : Lines) (prev : List ℕ) (left : ℕ) (above here : ℕ → ℕ)
    → ((j : ℕ) → j ≤ length ys → get_or prev j 0 ≡ above j)
    → left ≡ here 0
    → ((j : ℕ)
        → j < length ys
        → here (suc j)
          ≡ (if bytes_eq x (line_at ys j) then above j + 1 else max (above (suc j)) (here j)))
    → (j : ℕ) → j < length ys
    → get_or (fill_cells x ys prev left) j 0 ≡ here (suc j)
unfolding fill_cells
fill_cells_lem x [] prev left above here p l step j h = elim h [ ]
fill_cells_lem x (y ∷ ys) prev left above here p l step zero h = ground (arith, step 0, p 0, p 1)
fill_cells_lem x (y ∷ ys) prev left above here p l step (suc j) h =
    fill_cells_lem x ys (drop 1 prev) _ (λ k. above (suc k)) (λ k. here (suc k))
      (λ k b. ground (arith, get_or-drop_one k prev, p (suc k))) (ground (arith, step 0, p 0, p 1))
      (λ k b. step (suc k) (omega arith)) j (omega arith)

fill_rows_lem :
    (xs new_lines : Lines) (prev : List ℕ) (table : ℕ → ℕ → ℕ)
    → ((j : ℕ) → j ≤ length new_lines → get_or prev j 0 ≡ table 0 j)
    → ((i : ℕ) → table i 0 ≡ 0)
    → ((i j : ℕ)
        → table (suc i) (suc j) ≡ (
            if bytes_eq (line_at xs i) (line_at new_lines j)
            then table i j + 1
            else max (table i (suc j)) (table (suc i) j)))
    → (i j : ℕ) → i < length xs
    → j ≤ length new_lines
    → dp_at (fill_rows xs new_lines prev) i j ≡ table (suc i) j
unfolding fill_rows
fill_rows_lem [] new_lines prev table p z step i j h b = elim h [ ]
fill_rows_lem (x ∷ xs) new_lines prev table p z step zero zero h b = ground (arith, z 1)
fill_rows_lem (x ∷ xs) new_lines prev table p z step zero (suc j) h b =
    fill_cells_lem x new_lines prev 0 (table 0) (table 1) p (ground (arith, z 1)) (λ k _. step 0 k)
      j (omega arith)
fill_rows_lem (x ∷ xs) new_lines prev table p z step (suc i) j h b =
    fill_rows_lem xs new_lines _ (λ k. table (suc k)) (λ k c. row k c) (λ k. z (suc k))
      (λ k l. step (suc k) l) i j (omega arith) b
  where
    row :
        (k : ℕ) → k ≤ length new_lines → get_or (0 ∷ fill_cells x new_lines prev 0) k 0 ≡ table 1 k
    row zero c = ground (arith, z 1)
    row (suc k) c =
        fill_cells_lem x new_lines prev 0 (table 0) (table 1) p (ground (arith, z 1))
          (λ k _. step 0 k) k (omega arith)

get_or-replicate : (n j : ℕ) → get_or (replicate {A = ℕ} n 0) j 0 ≡ 0
get_or-replicate zero j = refl
get_or-replicate (suc n) zero = refl
get_or-replicate (suc n) (suc j) = get_or-replicate n j

lcs_length-zero : (old_lines new_lines : Lines) (i : ℕ) → lcs_length old_lines new_lines i 0 ≡ 0
unfolding lcs_length
lcs_length-zero old_lines new_lines zero = refl
lcs_length-zero old_lines new_lines (suc i) = refl

-- Every cell of the table of computeLCS is the length of a longest common subsequence of two
-- prefixes, by its recursive definition.
pub fill_table-eq-lcs_length :
    (old_lines new_lines : Lines) (i j : ℕ)
    → i ≤ length old_lines
    → j ≤ length new_lines
    → dp_at (fill_table old_lines new_lines) i j ≡ lcs_length old_lines new_lines i j
unfolding fill_table lcs_length
fill_table-eq-lcs_length old_lines new_lines zero j h b =
    get_or-replicate (suc (length new_lines)) j
fill_table-eq-lcs_length old_lines new_lines (suc i) j h b =
    fill_rows_lem old_lines new_lines _ (lcs_length old_lines new_lines)
      (λ k c. get_or-replicate (suc (length new_lines)) k) (lcs_length-zero old_lines new_lines)
      (λ k l. refl) i j (omega arith) b
