-- ===== src/Diff/Lcs.antt =====
-- computeLCS of internal/tool/diff/diff.go: the table, the walk back through it, and the reversal.
pub mod Table
pub mod Walk
pub mod Optimal
use kontekst.Prelude.{
  ℕ, zero, suc, ◌+◌, max, Bool, List, [], ◌∷◌, reverse, Bytes, bytes_eq, length, get_or, drop,
  replicate, ltb, if◌then◌else◌,
}

abbrev pub Lines : Type 0
Lines = List Bytes

abbrev pub line_at : Lines → ℕ → Bytes
line_at lines i = get_or lines i []

pub record LcsMatch : Type 0 where
  pub old_index : ℕ
  pub new_index : ℕ

-- The cells of one row behind column 0. `prev` is the row above from the column left of the cell
-- on, and `left` is the cell written last.
unfoldable pub fill_cells : Bytes → Lines → (prev : List ℕ) → (left : ℕ) → List ℕ
fill_cells x [] prev left = []
fill_cells x (y ∷ ys) prev left =
    let diagonal = get_or prev 0 0 in
    let above = get_or prev 1 0 in
    let cell = if bytes_eq x y then diagonal + 1 else max above left in
    cell ∷ fill_cells x ys (drop 1 prev) cell

-- The rows below `prev`, one for each of the remaining old lines.
unfoldable pub fill_rows : Lines → Lines → (prev : List ℕ) → List (List ℕ)
fill_rows [] new_lines prev = []
fill_rows (x ∷ xs) new_lines prev =
    let row = 0 ∷ fill_cells x new_lines prev 0 in row ∷ fill_rows xs new_lines row

unfoldable pub fill_table : Lines → Lines → List (List ℕ)
fill_table old_lines new_lines =
    let first = replicate (suc (length new_lines)) 0 in first ∷ fill_rows old_lines new_lines first

abbrev pub dp_at : List (List ℕ) → ℕ → ℕ → ℕ
dp_at dp i j = get_or (get_or dp i []) j 0

-- The loop from the far corner, in the order in which it appends.
unfoldable pub walk_back : Lines → Lines → List (List ℕ) → (i j : ℕ) → List LcsMatch
walk_back old_lines new_lines dp zero j = []
walk_back old_lines new_lines dp (suc i) zero = []
walk_back old_lines new_lines dp (suc i) (suc j) =
    let matched = walk_back old_lines new_lines dp i j in
    let up = walk_back old_lines new_lines dp i (suc j) in
    let left = walk_back old_lines new_lines dp (suc i) j in
    if bytes_eq (line_at old_lines i) (line_at new_lines j)
    then record { old_index = i; new_index = j } ∷ matched
    else if ltb (dp_at dp (suc i) j) (dp_at dp i (suc j))
    then up
    else left

unfoldable pub compute_lcs : Lines → Lines → List LcsMatch
compute_lcs [] new_lines = []
compute_lcs (x ∷ xs) [] = []
compute_lcs (x ∷ xs) (y ∷ ys) =
    let old_lines = x ∷ xs in
    let new_lines = y ∷ ys in
    reverse (
      walk_back old_lines new_lines (fill_table old_lines new_lines) (length old_lines)
        (length new_lines))
