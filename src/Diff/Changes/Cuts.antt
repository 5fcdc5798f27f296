-- ===== src/Diff/Changes/Cuts.antt =====
-- Runs of unchanged lines are cut and joined, and scripts are continued at their end.
use native.Mathlib.Decide.{dec_lt}
use kontekst.Prelude.{ℕ, ◌+◌, ◌-◌, ◌≤◌, ◌<◌, ◌≡◌, ◌⊎◌, List, [], ◌∷◌, ◌++◌, arith}
use kontekst.Diff.Lcs.{Lines}
use kontekst.Diff.Changes.{Change}
use kontekst.Diff.Changes.Script.{SameRun, SameRun-refl, Leads}

module _ (old_lines new_lines : Lines) where
  -- A run cut at `i'`, and the two parts of it.
  pub SameRun-drop :
      {i j k l : ℕ} (i' : ℕ)
      → SameRun old_lines new_lines i j k l
      → i ≤ i'
      → i' ≤ k
      → SameRun old_lines new_lines i' (j + (i' - i)) k l
  SameRun-drop {i} {j} i' r p q = record {
    forward = q;
    as_many = omega (arith, r.as_many);
    same = λ n h.
        let old_place : i + ((i' - i) + n) ≡ i' + n = omega arith in
        let new_place : j + ((i' - i) + n) ≡ j + (i' - i) + n = omega arith in
        rw (old_place, new_place) at (r.same ((i' - i) + n) (omega arith));
  }

  pub SameRun-take :
      {i j k l : ℕ} (i' : ℕ)
      → SameRun old_lines new_lines i j k l
      → i ≤ i'
      → i' ≤ k
      → SameRun old_lines new_lines i j i' (j + (i' - i))
  SameRun-take {i} {j} i' r p q = record {
    forward = p;
    as_many = omega arith;
    same = λ n h. r.same n (omega arith);
  }

  pub SameRun-trans :
      {i j k l m n : ℕ}
      → SameRun old_lines new_lines i j k l
      → SameRun old_lines new_lines k l m n
      → SameRun old_lines new_lines i j m n
  SameRun-trans {i} {j} {k} {l} r s = record {
    forward = omega (arith, r.forward, s.forward);
    as_many = omega (arith, r.as_many, s.as_many);
    same = λ p h. elim (dec_lt (i + p) k) [
      | yes below ↦ r.same p below
      | no past ↦
          let old_place : k + (i + p - k) ≡ i + p = omega arith in
          let new_place : l + (i + p - k) ≡ j + p = omega (arith, r.as_many, r.forward) in
          rw (old_place, new_place) at (s.same (i + p - k) (omega arith))
    ];
  }

  -- A run behind the last change, and a change behind a run.
  pub Leads-run :
      {k l k' l' : ℕ} (gap i j : ℕ) (cs : List Change)
      → Leads old_lines new_lines k l gap i j cs
      → SameRun old_lines new_lines k l k' l'
      → Leads old_lines new_lines k' l' gap i j cs
  Leads-run gap i j [] r t = SameRun-trans r t
  Leads-run gap i j (c ∷ cs) s t = (
    s.0,
    s.1,
    s.2,
    s.3,
    s.4,
    omega (arith, t.forward),
    omega (arith, t.forward, t.as_many),
    Leads-run 1 c.old_end c.new_end cs s.7 t,
  )

  pub Leads-snoc :
      {k l : ℕ} (gap i j : ℕ) (cs : List Change) (c : Change)
      → gap ≤ 1
      → Leads old_lines new_lines k l gap i j cs
      → SameRun old_lines new_lines k l c.old_start c.new_start
      → k + 1 ≤ c.old_start
      → c.old_start ≤ c.old_end
      → c.new_start ≤ c.new_end
      → (c.old_start < c.old_end) ⊎ (c.new_start < c.new_end)
      → Leads old_lines new_lines c.old_end c.new_end gap i j (cs ++ c ∷ [])
  Leads-snoc gap i j [] c g r t p q q' n = (
    SameRun-trans r t,
    omega (arith, r.forward),
    q,
    q',
    n,
    omega arith,
    omega arith,
    SameRun-refl old_lines new_lines c.old_end c.new_end,
  )
  Leads-snoc gap i j (d ∷ ds) c g s t p q q' n = (
    s.0,
    s.1,
    s.2,
    s.3,
    s.4,
    omega (arith, t.forward),
    omega (arith, t.forward, t.as_many),
    Leads-snoc 1 d.old_end d.new_end ds c (omega arith) s.7 t p q q' n,
  )
