-- ===== src/Diff/Hunk/Numbered.antt =====
-- The two sides of a hunk of internal/tool/diff/diff.go: the lines with their numbers.
use kontekst.Prelude.Int.{ℤ, pos, ◌+ℤ◌, +ℤ_zero, int_laws}
use kontekst.Prelude.{
  ℕ, zero, suc, ◌+◌, ◌-◌, ◌≤◌, ◌≡◌, refl, sym, ap, ap₂, ◌∙◌, List, [], ◌∷◌, ◌++◌, Option, some,
  Bytes, cons_cong, arith,
}
use kontekst.Diff.Lcs.{Lines, line_at}
use kontekst.Diff.Hunk.{insert, delete, DiffLine}

-- A line's number and its text.
abbrev pub Numbered : Type 0
Numbered = Option ℤ × Bytes

unfoldable pub old_side : List DiffLine → List Numbered
old_side [] = []
old_side (d ∷ ds) = elim d.kind [
  | insert ↦ old_side ds
  | _ ↦ (d.old_number, d.content) ∷ old_side ds
]

unfoldable pub new_side : List DiffLine → List Numbered
new_side [] = []
new_side (d ∷ ds) = elim d.kind [
  | delete ↦ new_side ds
  | _ ↦ (d.new_number, d.content) ∷ new_side ds
]

-- The lines from `i` on, `n` of them, numbered from `first` + 1.
abbrev pub numbered : Lines → (i n : ℕ) → (first : ℤ) → List Numbered
numbered lines i zero first = []
numbered lines i (suc n) first =
    (some (first +ℤ pos 1), line_at lines i) ∷ numbered lines (suc i) n (first +ℤ pos 1)

pub old_side-append : (xs ys : List DiffLine) → old_side (xs ++ ys) ≡ old_side xs ++ old_side ys
unfolding old_side
old_side-append [] ys = refl
old_side-append (x ∷ xs) ys = ground (arith, old_side-append xs ys)

pub new_side-append : (xs ys : List DiffLine) → new_side (xs ++ ys) ≡ new_side xs ++ new_side ys
unfolding new_side
new_side-append [] ys = refl
new_side-append (x ∷ xs) ys = ground (arith, new_side-append xs ys)

pub numbered-add :
    (lines : Lines) (i m n : ℕ) (first : ℤ)
    → numbered lines i (m + n) first
      ≡ numbered lines i m first ++ numbered lines (i + m) n (first +ℤ pos m)
numbered-add lines i zero n first =
    rw (+ℤ_zero first) (ap₂ (λ a b. numbered lines a b first) (omega arith) (omega arith))
numbered-add lines i (suc m) n first =
    let count : suc m + n ≡ suc (m + n) = omega arith in
    let place : suc i + m ≡ i + suc m = omega arith in
    let number : first +ℤ pos 1 +ℤ pos m ≡ first +ℤ pos (suc m) = omega int_laws in
    rw count (
      cons_cong (some (first +ℤ pos 1), line_at lines i)
        (numbered-add lines (suc i) m n (first +ℤ pos 1)
          ∙ ap₂ (λ a b. numbered lines (suc i) m (first +ℤ pos 1) ++ numbered lines a n b) place
              number))

pub numbered_join :
    (lines : Lines) (i k l : ℕ) (first last : ℤ)
    → i ≤ k
    → k ≤ l
    → last ≡ first +ℤ pos (k - i)
    → numbered lines i (k - i) first ++ numbered lines k (l - k) last
      ≡ numbered lines i (l - i) first
numbered_join lines i k l first last p q e =
    let middle : k ≡ i + (k - i) = omega arith in
    let count : (k - i) + (l - k) ≡ l - i = omega arith in
    ap₂ (λ m n. numbered lines i (k - i) first ++ numbered lines m (l - k) n) middle e
    ∙ sym (numbered-add lines i (k - i) (l - k) first)
    ∙ ap (λ n. numbered lines i n first) count
