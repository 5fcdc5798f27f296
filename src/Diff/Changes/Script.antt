-- ===== src/Diff/Changes/Script.antt =====
-- The changes that findChanges returns are in order, apart, inside both files, and what lies
-- between them is the same in both.
use native.Mathlib.Decide.{dec_lt}
use native.Mathlib.Nat.{add-zero}
use native.Mathlib.Numerals.{add-one}
use mathlib.Core.Path.{subst₂}
use kontekst.Prelude.{
  ℕ, suc, ◌+◌, ◌≤◌, ◌<◌, ◌≡◌, ◌⊎◌, List, [], ◌∷◌, ◌||◌, length, ltb, if_ind, arith,
}
use kontekst.Diff.Lcs.{Lines, line_at, LcsMatch, compute_lcs}
use kontekst.Diff.Lcs.Walk.{Ascends, Ascends-le, compute_lcs-Ascends}
use kontekst.Diff.Changes.{Change, changes_from, find_changes}

pub suc_out : (i k : ℕ) → suc i + k ≡ i + suc k
suc_out i k = omega arith

module _ (old_lines new_lines : Lines) where
  -- The old lines from `i` up to `k` are the new lines from `j` up to `l`.
  pub record SameRun (i j k l : ℕ) : Type 0 where
    pub forward : i ≤ k
    pub as_many : k + j ≡ l + i
    pub same : (n : ℕ) → i + n < k → line_at old_lines (i + n) ≡ line_at new_lines (j + n)

  -- The changes lead from old line `i` and new line `j` to old line `k` and new line `l`, leaving at
  -- least `gap` lines unchanged in front of the first change and one between any two.
  abbrev pub Leads : (k l gap i j : ℕ) → List Change → Type 0
  Leads k l gap i j [] = SameRun i j k l
  Leads k l gap i j (c ∷ cs) =
      SameRun i j c.old_start c.new_start
      × (i + gap ≤ c.old_start)
      × (c.old_start ≤ c.old_end)
      × (c.new_start ≤ c.new_end)
      × ((c.old_start < c.old_end) ⊎ (c.new_start < c.new_end))
      × (c.old_end ≤ k)
      × (c.new_end ≤ l)
      × Leads k l 1 c.old_end c.new_end cs

  -- The changes lead from the given lines to the ends of both files.
  abbrev pub IsScript : (gap i j : ℕ) → List Change → Type 0
  IsScript = Leads (length old_lines) (length new_lines)

  pub SameRun-refl : (i j : ℕ) → SameRun i j i j
  SameRun-refl i j = record {
    forward = omega arith;
    as_many = omega arith;
    same = λ n h. absurd (omega arith);
  }

  pub SameRun-snoc :
      {i j k l : ℕ}
      → SameRun i j k l
      → line_at old_lines k ≡ line_at new_lines l
      → SameRun i j (k + 1) (l + 1)
  SameRun-snoc {i} {j} {k} {l} r e = record {
    forward = omega (arith, r.forward);
    as_many = omega (arith, r.as_many);
    same = λ n h. elim (dec_lt (i + n) k) [
      | yes below ↦ r.same n below
      | no past ↦
          let old_last : i + n ≡ k = omega arith in
          let new_last : j + n ≡ l = omega (arith, r.as_many) in rw (old_last, new_last) e
    ];
  }

  pub SameRun-cast : {i j k l k' l' : ℕ} → SameRun i j k l → k ≡ k' → l ≡ l' → SameRun i j k' l'
  SameRun-cast {i} {j} r p q = subst₂ (SameRun i j) p q r

  pub Leads-le : (k l gap i j : ℕ) (cs : List Change) → Leads k l gap i j cs → (i ≤ k) × (j ≤ l)
  Leads-le k l gap i j [] r = omega (arith, r.forward, r.as_many)
  Leads-le k l gap i j (c ∷ cs) s = let run = s.0 in omega (arith, run.forward, run.as_many)

  pub SameRun-tail : {i j k l : ℕ} → SameRun i j k l → i < k → SameRun (suc i) (suc j) k l
  SameRun-tail {i} {j} r h = record {
    forward = h;
    as_many = omega (arith, r.as_many);
    same = λ n b. rw (suc_out i n, suc_out j n) (r.same (suc n) (omega arith));
  }

  pub SameRun-head :
      {i j k l : ℕ} → SameRun i j k l → i < k → line_at old_lines i ≡ line_at new_lines j
  SameRun-head {i} {j} r h = rw (add-zero i, add-zero j) at (r.same 0 (omega arith))

  -- Where the first change leaves a line unchanged, the lines behind that line are led on.
  pub Leads-tail :
      {k l i j : ℕ} (cs : List Change)
      → Leads k l 1 i j cs
      → i < k
      → Leads k l 0 (suc i) (suc j) cs × (line_at old_lines i ≡ line_at new_lines j) × (j < l)
  Leads-tail [] r h = (SameRun-tail r h, SameRun-head r h, omega (arith, r.as_many, r.forward))
  Leads-tail (c ∷ cs) s h =
      let run = s.0 in
      (
        (SameRun-tail run (omega arith), omega arith, s.2, s.3, s.4, s.5, s.6, s.7),
        SameRun-head run (omega arith),
        omega (arith, run.as_many, run.forward),
      )

  pub Leads-end : {k l i j : ℕ} (cs : List Change) → Leads k l 1 i j cs → k ≤ i → l ≤ j
  Leads-end [] r h = omega (arith, r.forward, r.as_many)
  Leads-end (c ∷ cs) s h = absurd (omega arith)

  -- `i`, `j` is where the last change ended, and the loop stands at `k`, `l`.
  changes_from-IsScript :
      (gap i j k l : ℕ) (ms : List LcsMatch)
      → SameRun i j k l
      → i + gap ≤ k
      → Ascends old_lines new_lines k l ms
      → IsScript gap i j (changes_from old_lines new_lines k l ms)
  unfolding changes_from
  changes_from-IsScript gap i j k l [] r g a =
      if_ind (IsScript gap i j) (ltb k (length old_lines) || ltb l (length new_lines))
        (λ more. (
          r,
          g,
          a.0,
          a.1,
          ground arith,
          omega arith,
          omega arith,
          SameRun-refl (length old_lines) (length new_lines),
        ))
        (λ done. SameRun-cast r (ground arith) (ground arith))
  changes_from-IsScript gap i j k l (m ∷ ms) r g a =
      let later =
        Ascends-le old_lines new_lines {i = suc m.old_index} {j = suc m.new_index} ms a.3 in
      let rest : Ascends old_lines new_lines (m.old_index + 1) (m.new_index + 1) ms =
        rw (add-one m.old_index, add-one m.new_index) a.3 in
      if_ind (IsScript gap i j) (ltb k m.old_index || ltb l m.new_index)
        (λ more. (
          r,
          g,
          a.0,
          a.1,
          ground arith,
          omega arith,
          omega arith,
          changes_from-IsScript 1 m.old_index m.new_index (m.old_index + 1) (m.new_index + 1) ms
              (SameRun-snoc (SameRun-refl m.old_index m.new_index) a.2) (omega arith) rest,
        ))
        (λ done.
          changes_from-IsScript gap i j (m.old_index + 1) (m.new_index + 1) ms
            (SameRun-snoc (SameRun-cast r (ground arith) (ground arith)) a.2) (omega arith) rest)

-- findChanges returns a script from the old lines to the new ones: its changes are not empty, in
-- order, at least one line apart, inside both files, and all lines between them are kept.
pub find_changes-IsScript :
    (old_lines new_lines : Lines)
    → IsScript old_lines new_lines 0 0 0 (find_changes old_lines new_lines)
unfolding find_changes
find_changes-IsScript old_lines new_lines =
    changes_from-IsScript old_lines new_lines 0 0 0 0 0 (compute_lcs old_lines new_lines)
      (SameRun-refl old_lines new_lines 0 0) (omega arith) (compute_lcs-Ascends old_lines new_lines)
