-- ===== src/Diff/Changes/Patch.antt =====
-- Applying the changes of findChanges to the old lines gives the new lines.
use native.Mathlib.Nat.{add-zero}
use kontekst.Prelude.{
  ℕ, zero, suc, ◌+◌, ◌-◌, ◌≤◌, ◌<◌, ◌≡◌, refl, sym, ap, ap₂, ◌∙◌, List, [], ◌∷◌, ◌++◌, Bytes,
  length, arith,
}
use kontekst.Diff.Lcs.{Lines, line_at}
use kontekst.Diff.Changes.{Change, find_changes}
use kontekst.Diff.Changes.Script.{SameRun, IsScript, suc_out, find_changes-IsScript}

-- The lines from `i` on, `n` of them.
abbrev pub segment : Lines → (i n : ℕ) → Lines
segment lines i zero = []
segment lines i (suc n) = line_at lines i ∷ segment lines (suc i) n

-- The old lines from `i` on, with each change put in its place.
abbrev pub patch : Lines → Lines → ℕ → List Change → Lines
patch old_lines new_lines i [] = segment old_lines i (length old_lines - i)
patch old_lines new_lines i (c ∷ cs) =
    segment old_lines i (c.old_start - i)
    ++ (segment new_lines c.new_start (c.new_end - c.new_start)
        ++ patch old_lines new_lines c.old_end cs)

pub segment-add :
    (lines : Lines) (i m n : ℕ)
    → segment lines i (m + n) ≡ segment lines i m ++ segment lines (i + m) n
segment-add lines i zero n = ap₂ (segment lines) (omega arith) (omega arith)
segment-add lines i (suc m) n =
    let tail : segment lines (suc i + m) n ≡ segment lines (i + suc m) n =
      ap (λ k. segment lines k n) (omega arith) in
    let count : suc m + n ≡ suc (m + n) = omega arith in
    rw count (ap (◌∷◌ (line_at lines i)) (segment-add lines (suc i) m n ∙ ap (◌++◌ _) tail))

pub segment_join :
    (lines : Lines) (i k l : ℕ)
    → i ≤ k
    → k ≤ l
    → segment lines i (k - i) ++ segment lines k (l - k) ≡ segment lines i (l - i)
segment_join lines i k l p q =
    let middle : k ≡ i + (k - i) = omega arith in
    let count : (k - i) + (l - k) ≡ l - i = omega arith in
    ap (λ m. segment lines i (k - i) ++ segment lines m (l - k)) middle
    ∙ sym (segment-add lines i (k - i) (l - k))
    ∙ ap (segment lines i) count

segment_shift : (x : Bytes) (xs : Lines) (i n : ℕ) → segment (x ∷ xs) (suc i) n ≡ segment xs i n
segment_shift x xs i zero = refl
segment_shift x xs i (suc n) = ap (◌∷◌ (line_at xs i)) (segment_shift x xs (suc i) n)

pub segment_all : (lines : Lines) → segment lines 0 (length lines) ≡ lines
segment_all [] = refl
segment_all (x ∷ xs) = ap (◌∷◌ x) (segment_shift x xs 0 (length xs) ∙ segment_all xs)

pub segment_same :
    (old_lines new_lines : Lines) (n i j : ℕ)
    → ((k : ℕ) → k < n → line_at old_lines (i + k) ≡ line_at new_lines (j + k))
    → segment old_lines i n ≡ segment new_lines j n
segment_same old_lines new_lines zero i j h = refl
segment_same old_lines new_lines (suc n) i j h =
    let here : line_at old_lines i ≡ line_at new_lines j =
      rw (add-zero i, add-zero j) at (h 0 (omega arith)) in
    ap₂ (◌∷◌) here (
      segment_same old_lines new_lines n (suc i) (suc j)
        (λ k b. rw (suc_out i k, suc_out j k) (h (suc k) (omega arith))))

module _ (old_lines new_lines : Lines) where
  pub run-eq :
      {i j k l : ℕ}
      → SameRun old_lines new_lines i j k l
      → segment old_lines i (k - i) ≡ segment new_lines j (l - j)
  run-eq {i} {j} {k} {l} r =
      segment_same old_lines new_lines (k - i) i j (λ n h. r.same n (omega (arith, r.forward)))
      ∙ ap (segment new_lines j) (omega (arith, r.as_many, r.forward))

  patch-IsScript :
      (gap i j : ℕ) (cs : List Change)
      → IsScript old_lines new_lines gap i j cs
      → patch old_lines new_lines i cs ≡ segment new_lines j (length new_lines - j)
  patch-IsScript gap i j [] s = run-eq s
  patch-IsScript gap i j (c ∷ cs) s =
      let run = s.0 in
      ap₂ (◌++◌) (run-eq run) (
        ap (◌++◌ (segment new_lines c.new_start (c.new_end - c.new_start)))
          (patch-IsScript 1 c.old_end c.new_end cs s.7))
      ∙ ap (◌++◌ (segment new_lines j (c.new_start - j)))
          (segment_join new_lines c.new_start c.new_end (length new_lines) s.3 s.6)
      ∙ segment_join new_lines j c.new_start (length new_lines)
          (omega (arith, run.as_many, run.forward)) (omega arith)

-- Applying the changes that findChanges returns to the old lines gives the new lines.
pub patch-find_changes :
    (old_lines new_lines : Lines)
    → patch old_lines new_lines 0 (find_changes old_lines new_lines) ≡ new_lines
patch-find_changes old_lines new_lines =
    patch-IsScript old_lines new_lines 0 0 0 _ (find_changes-IsScript old_lines new_lines)
    ∙ ap (segment new_lines 0) (omega arith)
    ∙ segment_all new_lines
