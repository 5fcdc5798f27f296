-- ===== src/EditFile/Sorted.antt =====
-- What validateEdits guarantees, and what sorting the edits keeps.
use kontekst.Prelude.Int.{ℤ, pos, negsuc, ltb_ℤ, eq_ℤ, eq_ℤ→eq, eq_ℤ_refl}
use mathlib.Core.Bool.{true≢false}
use kontekst.Prelude.{
  ℕ, zero, suc, ◌<◌, ◌≡◌, ◌≢◌, refl, sym, ap, ◌∙◌, true, false, List, [], ◌∷◌, Option, none, some,
  length, All, All-mono, if◌then◌else◌, if_ind, bytes_eq→eq, Bool-cases, inl, inr, arith,
}
use kontekst.Diff.Lcs.{Lines}
use kontekst.Hashline.{compute_line_hash}
use kontekst.EditFile.{
  Edit, found_line, has_line, check_edit, validate_from, validate_edits, insert_sorted, sort_edits,
}

-- The edit of line `n`, counted from 1.
unfoldable pub edit_for : ℕ → List Edit → Option Edit
edit_for n [] = none
edit_for n (e ∷ es) = if eq_ℤ e.line (pos n) then some e else edit_for n es

-- The edit is for one of the first `count` lines.
abbrev pub InRange : ℕ → Edit → Type 0
InRange count e = (k : ℕ) × (e.line ≡ pos (suc k)) × (k < count)

abbrev pub Fresh : ℤ → List Edit → Type 0
Fresh line es = All (λ d. d.line ≢ line) es

abbrev pub Distinct : List Edit → Type 0
Distinct [] = Unit
Distinct (e ∷ es) = Fresh e.line es × Distinct es

-- The lines fall strictly, and lie among the first `m`.
abbrev pub Falls : ℕ → List Edit → Type 0
Falls m [] = Unit
Falls m (e ∷ es) = (k : ℕ) × (e.line ≡ pos (suc k)) × (k < m) × Falls k es

insert_sorted-All {κ} :
    (P : Edit → Type κ) (e : Edit) (ds : List Edit) → P e → All P ds → All P (insert_sorted e ds)
unfolding insert_sorted
insert_sorted-All P e [] p h = (p, tt)
insert_sorted-All P e (d ∷ ds) p h =
    if_ind (All P) (ltb_ℤ e.line d.line) (λ _. (h.0, insert_sorted-All P e ds p h.1)) (λ _. (p, h))

insert_sorted-Falls :
    (m : ℕ) (e : Edit) (ds : List Edit)
    → InRange m e
    → Fresh e.line ds
    → Falls m ds
    → Falls m (insert_sorted e ds)
unfolding insert_sorted
insert_sorted-Falls m e [] (k, at, in_range) f h = (k, at, in_range, tt)
insert_sorted-Falls m e (d ∷ ds) (k, at, in_range) f (k', at', in_range', h) =
    if_ind (Falls m) (ltb_ℤ e.line d.line)
      (λ below. (k', at', in_range', insert_sorted-Falls k' e ds (k, at, ground arith) f.1 h))
      (λ above.
        let differ : k ≢ k' = λ same. f.0 (at' ∙ ap (λ (i : ℕ). pos (suc i)) (sym same) ∙ sym at) in
        (k, at, in_range, (k', at', ground arith, h)))

at_most_one :
    (n : ℕ) (e d : Edit)
    → d.line ≢ e.line
    → eq_ℤ e.line (pos n) ≡ true
    → eq_ℤ d.line (pos n) ≡ false
at_most_one n e d differ at = elim (Bool-cases (eq_ℤ d.line (pos n))) [
  | inl both ↦ absurd (differ (eq_ℤ→eq d.line (pos n) both ∙ sym (eq_ℤ→eq e.line (pos n) at)))
  | inr other ↦ other
]

edit_for-insert_sorted :
    (n : ℕ) (e : Edit) (ds : List Edit)
    → Fresh e.line ds
    → edit_for n (insert_sorted e ds) ≡ edit_for n (e ∷ ds)
unfolding insert_sorted edit_for
edit_for-insert_sorted n e [] f = refl
edit_for-insert_sorted n e (d ∷ ds) f =
    if_ind (λ es. edit_for n es ≡ edit_for n (e ∷ d ∷ ds)) (ltb_ℤ e.line d.line)
      (λ _. elim (Bool-cases (eq_ℤ e.line (pos n))) [
        | inl here ↦ rw (at_most_one n e d f.0 here, edit_for-insert_sorted n e ds f.1, here)
        | inr elsewhere ↦ rw (edit_for-insert_sorted n e ds f.1, elsewhere)
      ])
      (λ _. refl)

pub sort_edits-All {κ} : (P : Edit → Type κ) (es : List Edit) → All P es → All P (sort_edits es)
unfolding sort_edits
sort_edits-All P [] h = tt
sort_edits-All P (e ∷ es) h = insert_sorted-All P e (sort_edits es) h.0 (sort_edits-All P es h.1)

-- Sorting keeps which edit is for which line.
pub edit_for-sort_edits :
    (n : ℕ) (es : List Edit) → Distinct es → edit_for n (sort_edits es) ≡ edit_for n es
unfolding sort_edits
edit_for-sort_edits n [] h = refl
edit_for-sort_edits n (e ∷ es) h =
    edit_for-insert_sorted n e (sort_edits es) (sort_edits-All (λ x. x.line ≢ e.line) es h.0)
    ∙ same_tail (edit_for-sort_edits n es h.1)
  where
    same_tail :
        edit_for n (sort_edits es) ≡ edit_for n es
        → edit_for n (e ∷ sort_edits es) ≡ edit_for n (e ∷ es)
    same_tail ih = unfold edit_for in ap (λ r. if eq_ℤ e.line (pos n) then some e else r) ih

pub sort_edits-Falls :
    (m : ℕ) (es : List Edit) → All (InRange m) es → Distinct es → Falls m (sort_edits es)
unfolding sort_edits
sort_edits-Falls m [] h d = tt
sort_edits-Falls m (e ∷ es) h d =
    insert_sorted-Falls m e (sort_edits es) h.0 (sort_edits-All (λ x. x.line ≢ e.line) es d.0)
      (sort_edits-Falls m es h.1 d.1)

-- What a nil error of validateEdits says, behind the lines `seen`.
abbrev Passed : Lines → List ℤ → Edit → Type 0
Passed lines seen e =
    InRange (length lines) e
    × (has_line e.line seen ≡ false)
    × (compute_line_hash (found_line lines e.line) ≡ e.hash)

in_range_of :
    (line : ℤ) (count : ℕ)
    → ltb_ℤ line (pos 1) ≡ false
    → ltb_ℤ (pos count) line ≡ false
    → (k : ℕ) × (line ≡ pos (suc k)) × (k < count)
in_range_of (pos zero) count low high = absurd (ground arith)
in_range_of (pos (suc k)) count low high = (k, refl, ground arith)
in_range_of (negsuc n) count low high = absurd (ground arith)

check_edit-Passed :
    (index : ℕ) (seen : List ℤ) (lines : Lines) (e : Edit)
    → check_edit index seen lines e ≡ none
    → Passed lines seen e
unfolding check_edit
check_edit-Passed index seen lines e h = (
  in_range_of e.line (length lines) (ground arith) (ground arith),
  ground arith,
  bytes_eq→eq _ _ (ground arith),
)

not_seen :
    (line l : ℤ) (seen : List ℤ)
    → has_line line (l ∷ seen) ≡ false
    → (line ≢ l) × (has_line line seen ≡ false)
unfolding has_line
not_seen line l seen h = (
  λ same. true≢false (◌∙◌ {b = eq_ℤ l line} (sym (rw same (eq_ℤ_refl l))) (ground arith)),
  ground arith,
)

validate_from-Passed :
    (index : ℕ) (seen : List ℤ) (lines : Lines) (es : List Edit)
    → validate_from index seen lines es ≡ none
    → All (Passed lines seen) es × Distinct es
unfolding validate_from
validate_from-Passed index seen lines [] h = (tt, tt)
validate_from-Passed index seen lines (e ∷ es) h =
    let first : check_edit index seen lines e ≡ none = ground arith in
    let passed = check_edit-Passed index seen lines e first in
    let (later, apart) = validate_from-Passed (suc index) (e.line ∷ seen) lines es (ground arith) in
    (
      (
        passed,
        All-mono (λ d (r, new, same). (r, (not_seen d.line e.line seen new).1, same)) es later,
      ),
      (All-mono (λ d p. (not_seen d.line e.line seen p.1).0) es later, apart),
    )

-- A nil error of validateEdits means that no two edits are for one line, and that each is for a line
-- of the file and carries the hash of that line.
pub validate_edits-Passed :
    (lines : Lines) (es : List Edit)
    → validate_edits lines es ≡ none
    → All
        (λ e. InRange (length lines) e × (compute_line_hash (found_line lines e.line) ≡ e.hash))
        es
      × Distinct es
unfolding validate_edits
validate_edits-Passed lines es h =
    let (passed, apart) = validate_from-Passed 0 [] lines es h in
    (All-mono (λ e p. (p.0, p.2)) es passed, apart)
