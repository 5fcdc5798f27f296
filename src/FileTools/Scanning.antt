-- ===== src/FileTools/Scanning.antt =====
-- The lines that read_file of internal/tool/builtin/read_file.go scans, with their hashes.
use kontekst.Prelude.Int.{ℤ, eq_ℤ, eq_ℤ→eq}
use kontekst.Prelude.{
  ℕ, zero, suc, ◌+◌, ◌-◌, ◌≤◌, ◌<◌, ◌≡◌, ◌≢◌, sym, ap, ◌∙◌, false, List, [], ◌∷◌, Option, none,
  some, Bytes, length, length-append, ltb, leb, ◌==◌, ==_iff, if_ind, arith, All, get_elem?, get_or,
  inl, inr, Bool-cases,
}
use kontekst.Hashline.{compute_line_hash}
use kontekst.EditFile.{has_line}
use kontekst.FileTools.Read.{
  drop_cr, Lines, no_lines_read, add_line, Scanned, scanned, stopped, scan_from,
  max_scan_token_size, max_lines_default,
}

-- The hash of line `k` is that of the file's line without a carriage return at its end.
abbrev pub Hashed : (raws : List Bytes) → (out : Lines) → ℕ → Type 0
Hashed raws out k =
    (raw : Bytes) × (get_elem? raws (k - 1) ≡ some raw)
    × (out.hash_map k ≡ compute_line_hash (drop_cr raw))

-- The lines read of the first `line_num` are those from the start on, with their hashes.
pub record Reads (start_line line_num : ℕ) (raws : List Bytes) (out : Lines) : Type 0 where
  pub counts : length out.lines ≡ suc line_num - start_line
  pub hashed : (k : ℕ) → start_line ≤ k → k ≤ line_num → Hashed raws out k

pub read_none :
    (start_line : ℕ) (raws : List Bytes) → 1 ≤ start_line → Reads start_line 0 raws no_lines_read
read_none start_line raws h = record {
  counts = omega arith;
  hashed = λ k low high. absurd (omega arith);
}

-- One more line in front of the start changes nothing.
pub skip-Reads :
    (start_line line_num : ℕ) (raws : List Bytes) (out : Lines)
    → suc line_num < start_line
    → Reads start_line line_num raws out
    → Reads start_line (suc line_num) raws out
skip-Reads start_line line_num raws out h reads = record {
  counts = omega (arith, reads.counts);
  hashed = λ k low high. absurd (omega arith);
}

pub add-Reads :
    (start_line line_num : ℕ) (raws : List Bytes) (out : Lines) (raw : Bytes)
    → start_line ≤ suc line_num
    → get_elem? raws line_num ≡ some raw
    → Reads start_line line_num raws out
    → Reads start_line (suc line_num) raws (add_line (suc line_num) (drop_cr raw) out)
unfolding add_line
add-Reads start_line line_num raws out raw h at reads = record {
  counts = omega (arith, reads.counts, length-append out.lines (drop_cr raw ∷ []));
  hashed = λ k low high. elim (Bool-cases (k == suc line_num)) [
    | inl e ↦
        let same : k ≡ suc line_num = (==_iff k (suc line_num)).0 e in
        let index : k - 1 ≡ line_num = omega (arith, same) in
        (raw, ap (get_elem? raws) index ∙ at, ground (arith, e))
    | inr e ↦
        let (raw', at', hash) = reads.hashed k low (ground arith) in
        (raw', at', ground (arith, e, hash))
  ];
}

abbrev pub Read : (start_line : ℕ) → List Bytes → Scanned → Type 0
Read start_line raws (stopped e) = Unit
Read start_line raws (scanned out line_num) = (m : ℕ) × Reads start_line m raws out

pub scan_from-Read :
    (start_line : ℕ) (end_line : Option ℕ) (line_num : ℕ) (rest raws : List Bytes) (out : Lines)
    → ((i : ℕ) → get_elem? rest i ≡ get_elem? raws (i + line_num))
    → Reads start_line line_num raws out
    → Read start_line raws (scan_from start_line end_line line_num rest out)
unfolding scan_from
scan_from-Read start_line end_line line_num [] raws out at reads = (line_num, reads)
scan_from-Read start_line none line_num (raw ∷ rest) raws out at reads =
    let next : (i : ℕ) → get_elem? rest i ≡ get_elem? raws (i + suc line_num) =
      λ i. at (suc i) ∙ ap (get_elem? raws) (omega arith) in
    let here : get_elem? raws line_num ≡ some raw =
      ap (get_elem? raws) (omega arith) ∙ sym (at 0) in
    if_ind (Read start_line raws) (leb max_scan_token_size (length raw)) (λ _. tt)
      (λ _.
        if_ind (Read start_line raws) (ltb (suc line_num) start_line)
          (λ low.
            scan_from-Read start_line none (suc line_num) rest raws out next
              (skip-Reads start_line line_num raws out (ground arith) reads))
          (λ high.
            if_ind (Read start_line raws) (leb max_lines_default (suc (length out.lines))) (λ _. tt)
              (λ _.
                scan_from-Read start_line none (suc line_num) rest raws _ next
                  (add-Reads start_line line_num raws out raw (ground arith) here reads))))
scan_from-Read start_line (some end_line) line_num (raw ∷ rest) raws out at reads =
    let next : (i : ℕ) → get_elem? rest i ≡ get_elem? raws (i + suc line_num) =
      λ i. at (suc i) ∙ ap (get_elem? raws) (omega arith) in
    let here : get_elem? raws line_num ≡ some raw =
      ap (get_elem? raws) (omega arith) ∙ sym (at 0) in
    if_ind (Read start_line raws) (leb max_scan_token_size (length raw)) (λ _. tt)
      (λ _.
        if_ind (Read start_line raws) (ltb (suc line_num) start_line)
          (λ low.
            scan_from-Read start_line (some end_line) (suc line_num) rest raws out next
              (skip-Reads start_line line_num raws out (ground arith) reads))
          (λ high.
            if_ind (Read start_line raws) (ltb end_line (suc line_num)) (λ _. (line_num, reads))
              (λ _.
                scan_from-Read start_line (some end_line) (suc line_num) rest raws _ next
                  (add-Reads start_line line_num raws out raw (ground arith) here reads))))

pub get_or-get_elem? :
    (raws : List Bytes) (i : ℕ) (raw : Bytes)
    → get_elem? raws i ≡ some raw
    → (i < length raws) × (get_or raws i [] ≡ raw)
get_or-get_elem? [] i raw h = absurd (ground arith)
get_or-get_elem? (r ∷ raws) zero raw h = (omega arith, ground (arith, h))
get_or-get_elem? (r ∷ raws) (suc i) raw h =
    let (bound, same) = get_or-get_elem? raws i raw h in (omega (arith, bound), same)

pub All-get_elem? :
    (raws : List Bytes) (i : ℕ) (raw : Bytes)
    → get_elem? raws i ≡ some raw
    → All (λ r. drop_cr r ≡ r) raws
    → drop_cr raw ≡ raw
All-get_elem? [] i raw h plain = absurd (ground arith)
All-get_elem? (r ∷ raws) zero raw h plain = ground (arith, h, plain.0)
All-get_elem? (r ∷ raws) (suc i) raw h plain = All-get_elem? raws i raw h plain.1

pub fresh_line :
    (line l : ℤ) (seen : List ℤ)
    → line ≢ l
    → has_line line seen ≡ false
    → has_line line (l ∷ seen) ≡ false
unfolding has_line
fresh_line line l seen differ h = elim (Bool-cases (eq_ℤ l line)) [
  | inl e ↦ absurd (differ (sym (eq_ℤ→eq l line e)))
  | inr e ↦ ground (arith, e, h)
]
