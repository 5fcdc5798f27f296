-- ===== src/EditFile/Apply.antt =====
-- Applying the checked edits changes each line as its own edit says, and nothing else.
use mathlib.Core.List.{append_assoc, append-nil}
use kontekst.Prelude.Int.{pos, eq_ℤ}
use kontekst.Prelude.{
  ℕ, zero, suc, ◌+◌, ◌≤◌, ◌<◌, ◌≡◌, refl, sym, ap, ap₂, ◌∙◌, false, true, List, [], ◌∷◌, ◌++◌, none,
  Bytes, length, set, take, drop, All, All-mono, subst, lt→ltb, le→leb, length-append, cons_cong,
  arith,
}
use kontekst.Diff.Lcs.{Lines}
use kontekst.EditFile.{
  Operation, replace, delete, insert_after, insert_before, other, Edit, done, validate_edits,
  sort_edits, apply_at, apply_line, apply_edit, apply_all, apply_edits,
}
use kontekst.EditFile.Sorted.{
  edit_for, Falls, sort_edits-All, edit_for-sort_edits, sort_edits-Falls, validate_edits-Passed,
}
use kontekst.EditFile.Edited.{expand_by, expand, edited, IsKnown}

set-append :
    (xs : Lines) (x y : Bytes) (ys : Lines) → set (xs ++ (x ∷ ys)) (length xs) y ≡ xs ++ (y ∷ ys)
set-append [] x y ys = refl
set-append (z ∷ xs) x y ys = cons_cong z (set-append xs x y ys)

take-append : (xs ys : Lines) → take (length xs) (xs ++ ys) ≡ xs
take-append [] ys = refl
take-append (x ∷ xs) ys = cons_cong x (take-append xs ys)

drop-append : (xs ys : Lines) → drop (length xs) (xs ++ ys) ≡ ys
drop-append [] ys = refl
drop-append (x ∷ xs) ys = drop-append xs ys

take-append_suc :
    (xs : Lines) (x : Bytes) (ys : Lines) → take (suc (length xs)) (xs ++ (x ∷ ys)) ≡ xs ++ (x ∷ [])
take-append_suc [] x ys = refl
take-append_suc (z ∷ xs) x ys = cons_cong z (take-append_suc xs x ys)

drop-append_suc :
    (xs : Lines) (x : Bytes) (ys : Lines) → drop (suc (length xs)) (xs ++ (x ∷ ys)) ≡ ys
drop-append_suc [] x ys = refl
drop-append_suc (z ∷ xs) x ys = drop-append_suc xs x ys

length-suc : (xs : Lines) (x : Bytes) (ys : Lines) → length xs < length (xs ++ (x ∷ ys))
length-suc xs x ys = omega (arith, length-append xs (x ∷ ys))

-- One edit replaces its own line.
apply_at-eq :
    (op : Operation) (xs : Lines) (x : Bytes) (ys : Lines) (content : Bytes)
    → IsKnown op
    → apply_at op (xs ++ (x ∷ ys)) (length xs) content ≡ done (xs ++ (expand_by op content x ++ ys))
unfolding apply_at
apply_at-eq replace xs x ys content k =
    rw (lt→ltb _ _ (length-suc xs x ys), set-append xs x content ys)
apply_at-eq delete xs x ys content k =
    rw (lt→ltb _ _ (length-suc xs x ys), take-append xs (x ∷ ys), drop-append_suc xs x ys)
apply_at-eq insert_after xs x ys content k =
    rw (le→leb _ _ (length-suc xs x ys), take-append_suc xs x ys, drop-append_suc xs x ys)
      (ap done (append_assoc xs (x ∷ []) (content ∷ ys)))
apply_at-eq insert_before xs x ys content k =
    let fits : length xs ≤ length (xs ++ (x ∷ ys)) = omega (arith, length-suc xs x ys) in
    rw (le→leb _ _ fits, take-append xs (x ∷ ys), drop-append xs (x ∷ ys))
apply_at-eq (other op) xs x ys content k = absurd k

edited-append :
    (es : List Edit) (n : ℕ) (xs ys : Lines)
    → edited es n (xs ++ ys) ≡ edited es n xs ++ edited es (n + length xs) ys
unfolding edited
edited-append es n [] ys = ap (λ k. edited es k ys) (omega arith)
edited-append es n (x ∷ xs) ys =
    let place : suc n + length xs ≡ n + suc (length xs) = omega arith in
    ap (◌++◌ (expand (edit_for n es) x))
      (edited-append es (suc n) xs ys ∙ ap (λ k. edited es (suc n) xs ++ edited es k ys) place)
    ∙ sym (
        append_assoc (expand (edit_for n es) x) (edited es (suc n) xs)
          (edited es (n + suc (length xs)) ys))

-- An edit behind the lines leaves them as they are.
edited-skip :
    (e : Edit) (es : List Edit) (m n : ℕ) (xs : Lines)
    → e.line ≡ pos m
    → n + length xs ≤ m
    → edited (e ∷ es) n xs ≡ edited es n xs
unfolding edited edit_for
edited-skip e es m n [] at h = refl
edited-skip e es m n (x ∷ xs) at h =
    let elsewhere : eq_ℤ e.line (pos n) ≡ false = rw at (ground arith) in
    rw elsewhere
      (ap (◌++◌ (expand (edit_for n es) x)) (edited-skip e es m (suc n) xs at (omega arith)))

edit_for-none : (es : List Edit) (m n : ℕ) → Falls m es → m < n → edit_for n es ≡ none
unfolding edit_for
edit_for-none [] m n h b = refl
edit_for-none (e ∷ es) m n (k, at, lt, h) b =
    let elsewhere : eq_ℤ e.line (pos n) ≡ false = rw at (ground arith) in
    rw elsewhere (edit_for-none es k n h (omega arith))

-- Edits in front of the lines leave them as they are.
edited-above : (es : List Edit) (m n : ℕ) (xs : Lines) → Falls m es → m < n → edited es n xs ≡ xs
unfolding edited
edited-above es m n [] h b = refl
edited-above es m n (x ∷ xs) h b =
    rw (edit_for-none es m n h b) (cons_cong x (edited-above es m (suc n) xs h (omega arith)))

edited-split :
    (e : Edit) (es : List Edit) (xs : Lines) (x : Bytes) (ys : Lines)
    → e.line ≡ pos (suc (length xs))
    → Falls (length xs) es
    → edited (e ∷ es) 1 (xs ++ (x ∷ ys))
      ≡ edited es 1 xs ++ (expand_by e.operation e.content x ++ ys)
unfolding edited edit_for
edited-split e es xs x ys at h =
    let place : 1 + length xs ≡ suc (length xs) = omega arith in
    let here : eq_ℤ e.line (pos (suc (length xs))) ≡ true = rw at (ground arith) in
    let own : edited (e ∷ es) (suc (length xs)) (x ∷ ys) ≡ expand_by e.operation e.content x ++ ys =
      rw here (
        ap (◌++◌ (expand_by e.operation e.content x)) (
          edited-above (e ∷ es) (suc (length xs)) (suc (suc (length xs))) ys
            (length xs, at, omega arith, h) (omega arith))) in
    edited-append (e ∷ es) 1 xs (x ∷ ys)
    ∙ ap₂ (◌++◌) (edited-skip e es (suc (length xs)) 1 xs at (omega arith))
        (ap (λ k. edited (e ∷ es) k (x ∷ ys)) place ∙ own)

split_at :
    (k : ℕ) (xs : Lines)
    → k < length xs
    → (a : Lines) × (x : Bytes) × (b : Lines) × (xs ≡ a ++ (x ∷ b)) × (length a ≡ k)
split_at k [] h = elim h [ ]
split_at zero (x ∷ xs) h = ([], x, xs, refl, refl)
split_at (suc k) (x ∷ xs) h =
    let (a, y, b, e, c) = split_at k xs (omega arith) in (x ∷ a, y, b, cons_cong x e, ap suc c)

apply_edit-eq :
    (xs : Lines) (x : Bytes) (ys : Lines) (e : Edit)
    → e.line ≡ pos (suc (length xs))
    → IsKnown e.operation
    → apply_edit (xs ++ (x ∷ ys)) e ≡ done (xs ++ (expand_by e.operation e.content x ++ ys))
unfolding apply_edit apply_line
apply_edit-eq xs x ys e at known =
    ap (λ l. apply_line e.operation (xs ++ (x ∷ ys)) l e.content) at
    ∙ apply_at-eq e.operation xs x ys e.content known

apply_all-cons :
    (e : Edit) (es : List Edit) (lines lines' : Lines)
    → apply_edit lines e ≡ done lines'
    → apply_all lines (e ∷ es) ≡ apply_all lines' es
unfolding apply_all
apply_all-cons e es lines lines' h = ground arith

apply_all-step :
    (e : Edit) (es : List Edit) (a : Lines) (x : Bytes) (b tail : Lines)
    → e.line ≡ pos (suc (length a))
    → IsKnown e.operation
    → Falls (length a) es
    → ((rest : Lines) → apply_all (a ++ rest) es ≡ done (edited es 1 a ++ rest))
    → apply_all ((a ++ (x ∷ b)) ++ tail) (e ∷ es) ≡ done (edited (e ∷ es) 1 (a ++ (x ∷ b)) ++ tail)
apply_all-step e es a x b tail at known h later =
    let grown = expand_by e.operation e.content x in
    let first : apply_edit ((a ++ (x ∷ b)) ++ tail) e ≡ done (a ++ (grown ++ (b ++ tail))) =
      ap (λ l. apply_edit l e) (append_assoc a (x ∷ b) tail)
      ∙ apply_edit-eq a x (b ++ tail) e at known in
    let regroup : (edited es 1 a ++ (grown ++ b)) ++ tail
        ≡ edited es 1 a ++ (grown ++ (b ++ tail)) =
      append_assoc (edited es 1 a) (grown ++ b) tail
      ∙ ap (◌++◌ (edited es 1 a)) (append_assoc grown b tail) in
    apply_all-cons e es ((a ++ (x ∷ b)) ++ tail) (a ++ (grown ++ (b ++ tail))) first
    ∙ later (grown ++ (b ++ tail))
    ∙ ap done (sym regroup)
    ∙ ap (λ l. done (l ++ tail)) (sym (edited-split e es a x b at h))

-- Edits whose lines fall apply to the lines in front of `tail`.
apply_all-eq :
    (es : List Edit) (front tail : Lines)
    → All (λ e. IsKnown e.operation) es
    → Falls (length front) es
    → apply_all (front ++ tail) es ≡ done (edited es 1 front ++ tail)
apply_all-eq [] front tail known h =
    unfold apply_all in
    ap (λ l. done (l ++ tail)) (sym (edited-above [] 0 1 front tt (omega arith)))
apply_all-eq (e ∷ es) front tail known (k, at, lt, h) =
    let (a, x, b, split, count) = split_at k front lt in
    let at' : e.line ≡ pos (suc (length a)) = at ∙ ap (λ (n : ℕ). pos (suc n)) (sym count) in
    let h' : Falls (length a) es = rw count h in
    subst (λ l. apply_all (l ++ tail) (e ∷ es) ≡ done (edited (e ∷ es) 1 l ++ tail)) (sym split)
      (apply_all-step e es a x b tail at' known.0 h' (λ rest. apply_all-eq es a rest known.1 h'))

edited_cong :
    (es ds : List Edit) (n : ℕ) (lines : Lines)
    → ((k : ℕ) → edit_for k es ≡ edit_for k ds)
    → edited es n lines ≡ edited ds n lines
unfolding edited
edited_cong es ds n [] h = refl
edited_cong es ds n (x ∷ xs) h =
    ap₂ (λ o rest. expand o x ++ rest) (h n) (edited_cong es ds (suc n) xs h)

-- Where validateEdits finds no error and every operation is one of the four, applyEdits neither
-- fails nor panics, in whatever order the edits are given: each line becomes what its own edit makes
-- of it, a line with no edit stays, and the lines keep their order.
pub apply_edits-edited :
    (lines : Lines) (es : List Edit)
    → validate_edits lines es ≡ none
    → All (λ e. IsKnown e.operation) es
    → apply_edits lines es ≡ done (edited es 1 lines)
unfolding apply_edits
apply_edits-edited lines es h known =
    let (passed, apart) = validate_edits-Passed lines es h in
    let falls = sort_edits-Falls (length lines) es (All-mono (λ e p. p.0) es passed) apart in
    ap (λ l. apply_all l (sort_edits es)) (sym (append-nil lines))
    ∙ apply_all-eq (sort_edits es) lines [] (sort_edits-All (λ e. IsKnown e.operation) es known)
        falls
    ∙ ap done (
        append-nil (edited (sort_edits es) 1 lines)
        ∙ edited_cong (sort_edits es) es 1 lines (λ k. edit_for-sort_edits k es apart))
