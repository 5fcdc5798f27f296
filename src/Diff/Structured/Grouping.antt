-- ===== src/Diff/Structured/Grouping.antt =====
-- The loop that groups the changes: every block is a hunk, and the blocks hold all changes.
use native.Mathlib.Nat.{zero-add, sub-zero}
use mathlib.Core.List.{append_assoc}
use kontekst.Prelude.Int.{sub_ℕ, sub_ℕ_eq}
use mathlib.Core.Bool.{false≢true}
use kontekst.Diff.Split.{is_empty}
use kontekst.Prelude.{
  ℕ, min, ◌+◌, ◌-◌, ◌≤◌, ◌<◌, ◌≡◌, refl, sym, ap, ◌∙◌, List, [], ◌∷◌, ◌++◌, length, All, leb,
  All-append, All-mono, if_ind, Bytes, true, arith,
}
use kontekst.Diff.Lcs.{Lines}
use kontekst.Diff.Changes.{Change, find_changes}
use kontekst.Diff.Changes.Script.{
  SameRun, SameRun-refl, Leads, Leads-le, IsScript, find_changes-IsScript,
}
use kontekst.Diff.Changes.Cuts.{SameRun-drop, SameRun-take, Leads-run, Leads-snoc}
use kontekst.Diff.Hunk.{DiffBlock, Hashes, filter_changes_in_range}
use kontekst.Diff.Structured.{
  DiffPreview, structured_diff, emit, blocks_from, blocks_of, hunk_start_of, hunk_end_of,
  lines_added_in, lines_removed_in,
}
use kontekst.Diff.Structured.Group.{filter-group, Leads-All}
use kontekst.Diff.Structured.Blocks.{IsHunk, Covers, emit-Covers}

lines_added_in-append :
    (xs ys : List DiffBlock) → lines_added_in (xs ++ ys) ≡ lines_added_in xs + lines_added_in ys
unfolding lines_added_in
lines_added_in-append [] ys = omega arith
lines_added_in-append (x ∷ xs) ys = omega (arith, lines_added_in-append xs ys)

lines_removed_in-append :
    (xs ys : List DiffBlock)
    → lines_removed_in (xs ++ ys) ≡ lines_removed_in xs + lines_removed_in ys
unfolding lines_removed_in
lines_removed_in-append [] ys = omega arith
lines_removed_in-append (x ∷ xs) ys = omega (arith, lines_removed_in-append xs ys)

module _ (old_lines new_lines : Lines) (old_hashes new_hashes : Hashes)
    (changes : List Change) where
  -- The loop stands behind the group `g ∷ gs`, which began at `i`, `j` and leads to `e`, `f`.
  record InHunk (before : List Change) (g : Change) (gs cs : List Change) (i j e f : ℕ)
      : Type 0 where
    split : changes ≡ before ++ ((g ∷ gs) ++ cs)
    apart : All (λ c. c.old_end < i) before
    leads : Leads old_lines new_lines e f 0 i j (g ∷ gs)
    rest : IsScript old_lines new_lines 1 e f cs

  -- Closing the hunk at `k`, in front of the changes that are left.
  close-Covers :
      (before : List Change) (g : Change) (gs cs : List Change) (i j e f k : ℕ)
      → InHunk before g gs cs i j e f
      → e ≤ k
      → k ≤ length old_lines
      → f + (k - e) ≤ length new_lines
      → SameRun old_lines new_lines e f k (f + (k - e))
      → All (λ c. k < c.old_start) cs
      → Covers old_lines new_lines old_hashes new_hashes k
          (f + (k - e))
          i
          j
          (emit old_lines new_lines old_hashes new_hashes changes i k)
  close-Covers before g gs cs i j e f k h p q fits run later =
      emit-Covers old_lines new_lines old_hashes new_hashes changes k (f + (k - e)) 0 i j g gs
        (ap (λ l. filter_changes_in_range l i k) h.split
          ∙ filter-group i k before (g ∷ gs) cs h.apart
              (All-mono (λ c b. (omega arith, omega arith)) (g ∷ gs)
                (Leads-All old_lines new_lines e f 0 i j (g ∷ gs) h.leads))
              later)
        (Leads-run old_lines new_lines 0 i j (g ∷ gs) h.leads run) q fits

  abbrev old_total : ℕ
  old_total = length old_lines

  abbrev new_total : ℕ
  new_total = length new_lines

  abbrev CoversAll : ℕ → ℕ → List DiffBlock → Type 0
  CoversAll = Covers old_lines new_lines old_hashes new_hashes old_total new_total

  -- The lines between the end of one hunk and the beginning of the next are the same in both.
  append-Covers :
      (k l i j i' j' : ℕ) (bs bs' : List DiffBlock)
      → Covers old_lines new_lines old_hashes new_hashes k l i j bs
      → CoversAll i' j' bs'
      → (i ≤ k) × (j ≤ l) × (k ≤ i') × (i' ≤ old_total) × (j' ≤ new_total)
      → l + (i' - k) ≡ j'
      → CoversAll i j (bs ++ bs')
  append-Covers k l i j i' j' bs bs' p q order e = (
    All-append (IsHunk old_lines new_lines) bs bs' p.0 q.0,
    omega (arith, lines_added_in-append bs bs', lines_removed_in-append bs bs', p.1, q.1),
  )

  blocks_from-Covers :
      (cs before : List Change) (g : Change) (gs : List Change) (i j e f hunk_end : ℕ)
      → InHunk before g gs cs i j e f
      → hunk_end ≡ min old_total (e + 3)
      → CoversAll i j (blocks_from old_lines new_lines old_hashes new_hashes changes i hunk_end cs)
  unfolding blocks_from
  blocks_from-Covers [] before g gs i j e f hunk_end h end =
      let (old_order, new_order) = Leads-le old_lines new_lines e f 0 i j (g ∷ gs) h.leads in
      let run = h.rest in
      let hunk =
        close-Covers before g gs [] i j e f hunk_end h (omega (arith, run.forward)) (omega arith)
          (omega (arith, run.forward, run.as_many))
          (SameRun-take old_lines new_lines hunk_end run (omega (arith, run.forward)) (omega arith))
          tt in
      (hunk.0, omega (arith, hunk.1, run.forward, run.as_many))
  blocks_from-Covers (c ∷ cs) before g gs i j e f hunk_end h end =
      let (old_order, new_order) = Leads-le old_lines new_lines e f 0 i j (g ∷ gs) h.leads in
      let s = h.rest in
      let run = s.0 in
      if_ind (CoversAll i j) (leb c.old_start (hunk_end + 3))
        (λ near.
          blocks_from-Covers cs before g (gs ++ c ∷ []) i j c.old_end c.new_end _
            (record {
              split = h.split ∙ ap (λ l. before ++ (g ∷ l)) (sym (append_assoc gs (c ∷ []) cs));
              apart = h.apart;
              leads =
                  Leads-snoc old_lines new_lines 0 i j (g ∷ gs) c (omega arith) h.leads run s.1 s.2
                    s.3 s.4;
              rest = s.7;
            })
            refl)
        (λ far.
          let gone : hunk_end + 3 < c.old_start = ground arith in
          let fits : c.old_start ≤ old_total = omega arith in
          let start = hunk_start_of c in
          let new_start = f + (start - e) in
          let new_end = f + (hunk_end - e) in
          append-Covers hunk_end new_end i j start new_start _ _
            (close-Covers before g gs (c ∷ cs) i j e f hunk_end h (omega arith) (omega arith)
              (omega (arith, run.as_many))
              (SameRun-take old_lines new_lines hunk_end run (omega arith) (omega arith))
              (
                omega arith,
                All-mono (λ d b. omega (arith, b.0)) cs
                    (Leads-All old_lines new_lines old_total new_total 1 c.old_end c.new_end cs
                      s.7),
              ))
            (blocks_from-Covers cs (before ++ (g ∷ gs)) c [] start new_start c.old_end c.new_end _
              (record {
                split = h.split ∙ sym (append_assoc before (g ∷ gs) (c ∷ cs));
                apart =
                    All-append (λ d. d.old_end < start) before (g ∷ gs)
                      (All-mono (λ d b. omega arith) before h.apart)
                      (All-mono (λ d b. omega (arith, b.2)) (g ∷ gs)
                        (Leads-All old_lines new_lines e f 0 i j (g ∷ gs) h.leads));
                leads = (
                  SameRun-drop old_lines new_lines start run (omega arith) (omega arith),
                  omega arith,
                  s.2,
                  s.3,
                  s.4,
                  omega arith,
                  omega arith,
                  SameRun-refl old_lines new_lines c.old_end c.new_end,
                );
                rest = s.7;
              })
              refl)
            (omega (arith, run.as_many)) (omega arith))

module _ (old_lines new_lines : Lines) (old_hashes new_hashes : Hashes) where
  blocks_of-Covers :
      (changes : List Change)
      → IsScript old_lines new_lines 0 0 0 changes
      → Covers old_lines new_lines old_hashes new_hashes
          (length old_lines)
          (length new_lines)
          0
          0
          (blocks_of old_lines new_lines old_hashes new_hashes changes)
  unfolding blocks_of lines_added_in lines_removed_in
  blocks_of-Covers [] s = (tt, omega (arith, s.as_many, s.forward))
  blocks_of-Covers (c ∷ cs) s =
      let run = s.0 in
      let start = hunk_start_of c in
      let covered =
        blocks_from-Covers old_lines new_lines old_hashes new_hashes (c ∷ cs) cs [] c [] start start
          c.old_end c.new_end (hunk_end_of old_lines c)
          (record {
            split = refl;
            apart = tt;
            leads = (
              rw (zero-add (start - 0), sub-zero start) at
                  (SameRun-drop old_lines new_lines start run (omega arith) (omega arith)),
              omega arith,
              s.2,
              s.3,
              s.4,
              omega arith,
              omega arith,
              SameRun-refl old_lines new_lines c.old_end c.new_end,
            );
            rest = s.7;
          })
          refl in
      (covered.0, omega (arith, covered.1, run.as_many))

  -- The blocks made of the changes that findChanges returns: each shows a stretch of the old lines
  -- and the stretch of the new lines that stands for it, whole, in order and with running numbers,
  -- and its header counts the lines of both.
  pub blocks_of-IsHunk :
      All
        (IsHunk old_lines new_lines)
        (blocks_of old_lines new_lines old_hashes new_hashes (find_changes old_lines new_lines))
  blocks_of-IsHunk = (blocks_of-Covers _ (find_changes-IsScript old_lines new_lines)).0

  pub blocks_of-balance :
      lines_added_in
          (blocks_of old_lines new_lines old_hashes new_hashes (find_changes old_lines new_lines))
        + length old_lines
      ≡ lines_removed_in
          (blocks_of old_lines new_lines old_hashes new_hashes (find_changes old_lines new_lines))
        + length new_lines
  blocks_of-balance =
      omega (arith, (blocks_of-Covers _ (find_changes-IsScript old_lines new_lines)).1)

no_change_balance :
    (old_lines new_lines : Lines) (old_hashes new_hashes : Hashes) (changes : List Change)
    → is_empty changes ≡ true
    → lines_added_in (blocks_of old_lines new_lines old_hashes new_hashes changes)
        + length old_lines
      ≡ lines_removed_in (blocks_of old_lines new_lines old_hashes new_hashes changes)
        + length new_lines
    → length old_lines ≡ length new_lines
unfolding blocks_of lines_added_in lines_removed_in
no_change_balance old_lines new_lines old_hashes new_hashes [] h balance = omega (arith, balance)
no_change_balance old_lines new_lines old_hashes new_hashes (c ∷ cs) h balance =
    absurd (false≢true h)

-- The net change that a preview reports is the number of new lines less the number of old ones.
pub structured_diff-net_change :
    (path : Bytes) (old_lines new_lines : Lines) (old_hashes new_hashes : Hashes)
    → (structured_diff path old_lines new_lines old_hashes new_hashes).summary.net_change
      ≡ sub_ℕ (length new_lines) (length old_lines)
unfolding structured_diff
structured_diff-net_change path [] [] old_hashes new_hashes = refl
structured_diff-net_change path [] (n ∷ ns) old_hashes new_hashes = ground arith
structured_diff-net_change path (o ∷ os) new_lines old_hashes new_hashes =
    let old_lines = o ∷ os in
    let changes = find_changes old_lines new_lines in
    let balance = blocks_of-balance old_lines new_lines old_hashes new_hashes in
    if_ind (λ (p : DiffPreview). p.summary.net_change ≡ sub_ℕ (length new_lines) (length old_lines))
      (is_empty changes)
      (λ same. sub_ℕ_eq 0 0 (length new_lines) (length old_lines) (
        omega (
          arith,
          no_change_balance old_lines new_lines old_hashes new_hashes changes same balance,
        )))
      (λ _. sub_ℕ_eq _ _ (length new_lines) (length old_lines) (omega (arith, balance)))
