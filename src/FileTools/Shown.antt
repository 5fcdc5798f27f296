-- ===== src/FileTools/Shown.antt =====
-- What read_file of internal/tool/builtin/read_file.go shows is what edit_file accepts.
use kontekst.Prelude.Int.{ℤ, pos, ltb_ℤ}
use kontekst.Prelude.{
  ℕ, zero, suc, ◌+◌, ◌-◌, ◌≤◌, ◌<◌, ◌≡◌, refl, sym, ap, ◌∙◌, subst, false, List, [], ◌∷◌, Option,
  none, some, Bytes, bytes_eq_refl, length, arith, All, All-mono, get_elem?, get_or,
}
use kontekst.Diff.Split.{split_lines}
use kontekst.Hashline.{compute_line_hash}
use kontekst.EditFile.{
  Edit, EditError, found_line, has_line, check_edit, validate_from, validate_edits,
}
use kontekst.EditFile.Sorted.{InRange, Distinct, Fresh}
use kontekst.EditFile.Tool.{file}
use kontekst.FileTools.Read.{
  drop_cr, Lines, no_lines_read, Scanned, scanned, stopped, shows, shown, shown_lines, read_stored,
}
use kontekst.FileTools.Scanning.{
  Reads, read_none, Read, scan_from-Read, get_or-get_elem?, All-get_elem?, fresh_line,
}

-- An edit that validateEdits has no objection to, behind the lines `seen`.
abbrev Fits : List Bytes → List ℤ → Edit → Type 0
Fits lines seen e =
    InRange (length lines) e
    × (compute_line_hash (found_line lines e.line) ≡ e.hash)
    × (has_line e.line seen ≡ false)

check_edit-none :
    (index : ℕ) (seen : List ℤ) (lines : List Bytes) (e : Edit)
    → Fits lines seen e
    → check_edit index seen lines e ≡ none
unfolding check_edit
check_edit-none index seen lines e ((k, at, bound), hash, new) =
    let low : ltb_ℤ e.line (pos 1) ≡ false = rw at (ground arith) in
    let high : ltb_ℤ (pos (length lines)) e.line ≡ false = rw at (ground (arith, bound)) in
    ground (arith, new, low, high, hash, bytes_eq_refl e.hash)

every_new :
    (lines : List Bytes) (line : ℤ) (seen : List ℤ) (es : List Edit)
    → Fresh line es
    → All (Fits lines seen) es
    → All (Fits lines (line ∷ seen)) es
every_new lines line seen [] fresh fits = tt
every_new lines line seen (e ∷ es) fresh fits = (
  (fits.0.0, fits.0.1, fresh_line e.line line seen fresh.0 fits.0.2),
  every_new lines line seen es fresh.1 fits.1,
)

validate_from-none :
    (index : ℕ) (seen : List ℤ) (lines : List Bytes) (es : List Edit)
    → All (Fits lines seen) es
    → Distinct es
    → validate_from index seen lines es ≡ none
unfolding validate_from
validate_from-none index seen lines [] fits apart = refl
validate_from-none index seen lines (e ∷ es) fits apart =
    ap
      (λ (o : Option EditError). elim o [
        | none ↦ validate_from (suc index) (e.line ∷ seen) lines es
        | some error ↦ some error
      ])
      (check_edit-none index seen lines e fits.0)
    ∙ validate_from-none (suc index) (e.line ∷ seen) lines es
        (every_new lines e.line seen es apart.0 fits.1) apart.1

-- The edit is for a line that was shown, and has the hash that was shown with it.
abbrev pub ForShown : (start_line : ℕ) → Lines → Edit → Type 0
ForShown start_line out e =
    (k : ℕ) × (e.line ≡ pos k)
    × (start_line ≤ k)
    × (k < start_line + length out.lines)
    × (e.hash ≡ out.hash_map k)

found_at :
    (lines : List Bytes) (line : ℤ) (k : ℕ)
    → line ≡ pos (suc k)
    → found_line lines line ≡ get_or lines k []
unfolding found_line
found_at lines line k at = ap (found_line lines) at

shown-Fits :
    (start_line m : ℕ) (raws : List Bytes) (out : Lines) (e : Edit)
    → 1 ≤ start_line
    → All (λ raw. drop_cr raw ≡ raw) raws
    → Reads start_line m raws out
    → ForShown start_line out e
    → Fits raws [] e
unfolding has_line
shown-Fits start_line m raws out e positive plain reads (zero, at, low, high, hash) =
    absurd (omega arith)
shown-Fits start_line m raws out e positive plain reads (suc k, at, low, high, hash) =
    let (raw, place, same) = reads.hashed (suc k) low (omega (arith, reads.counts)) in
    let index : suc k - 1 ≡ k = omega arith in
    let (bound, is) = get_or-get_elem? raws k raw (ap (get_elem? raws) (sym index) ∙ place) in
    (
      (k, at, bound),
      ap compute_line_hash (
            found_at raws e.line k at
            ∙ is
            ∙ sym (All-get_elem? raws k raw (ap (get_elem? raws) (sym index) ∙ place) plain))
          ∙ sym same
          ∙ sym hash,
      refl,
    )

shown_same :
    (lines : List Bytes) (start_line n : ℕ) (out' out : Lines)
    → shown_lines lines start_line n out' ≡ shows start_line out
    → out' ≡ out
unfolding shown_lines
shown_same [] start_line n out' out h = ground (arith, h)
shown_same (line ∷ lines) start_line n out' out h = ground (arith, h)

content-Fits :
    (start_line : ℕ) (raws : List Bytes) (s : Scanned) (out : Lines)
    → Read start_line raws s
    → shown start_line s ≡ shows start_line out
    → (m : ℕ) × Reads start_line m raws out
unfolding shown
content-Fits start_line raws (stopped e) out read h = ground (arith, h)
content-Fits start_line raws (scanned out' n) out (m, reads) h =
    (m, subst (Reads start_line m raws) (shown_same out'.lines start_line n out' out h) reads)

All-Fits :
    (start_line m : ℕ) (raws : List Bytes) (out : Lines) (es : List Edit)
    → 1 ≤ start_line
    → All (λ raw. drop_cr raw ≡ raw) raws
    → Reads start_line m raws out
    → All (ForShown start_line out) es
    → All (Fits raws []) es
All-Fits start_line m raws out es positive plain reads shown_edits =
    All-mono (λ e h. shown-Fits start_line m raws out e positive plain reads h) es shown_edits

-- Where no line of the file ends in a carriage return, edits of different lines that read_file showed, each with the hash that it showed for its line, have no objection of validateEdits, whatever range was read.
pub read_stored-validated :
    (start_line : ℕ) (end_line : Option ℕ) (bytes : Bytes) (out : Lines) (edits : List Edit)
    → 1 ≤ start_line
    → All (λ raw. drop_cr raw ≡ raw) (split_lines bytes)
    → read_stored start_line end_line (file bytes) ≡ shows start_line out
    → All (ForShown start_line out) edits
    → Distinct edits
    → validate_edits (split_lines bytes) edits ≡ none
unfolding read_stored validate_edits
read_stored-validated start_line end_line bytes out edits positive plain h shown_edits apart =
    let raws = split_lines bytes in
    let read =
      scan_from-Read start_line end_line 0 raws raws no_lines_read
        (λ i. ap (get_elem? raws) (omega arith)) (read_none start_line raws positive) in
    let (m, reads) = content-Fits start_line raws _ out read h in
    validate_from-none 0 [] raws edits
      (All-Fits start_line m raws out edits positive plain reads shown_edits) apart
