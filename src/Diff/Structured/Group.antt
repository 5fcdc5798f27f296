-- ===== src/Diff/Structured/Group.antt =====
-- filterChangesInRange picks exactly the changes of the hunk that is being closed.
use kontekst.Prelude.{ℕ, ◌≤◌, ◌<◌, ◌≡◌, refl, List, [], ◌∷◌, ◌++◌, All, All-mono, arith}
use mathlib.Core.List.{append-nil}
use kontekst.Diff.Lcs.{Lines}
use kontekst.Diff.Changes.{Change}
use kontekst.Diff.Changes.Script.{Leads}
use kontekst.Diff.Hunk.{filter_changes_in_range}

module _ (start end : ℕ) where
  abbrev filtered : List Change → List Change
  filtered cs = filter_changes_in_range cs start end

  filtered-append : (xs ys : List Change) → filtered (xs ++ ys) ≡ filtered xs ++ filtered ys
  unfolding filter_changes_in_range
  filtered-append [] ys = refl
  filtered-append (x ∷ xs) ys = ground (arith, filtered-append xs ys)

  filtered_before : (cs : List Change) → All (λ c. c.old_end < start) cs → filtered cs ≡ []
  unfolding filter_changes_in_range
  filtered_before [] h = refl
  filtered_before (c ∷ cs) h = ground (arith, filtered_before cs h.1)

  filtered_within :
      (cs : List Change)
      → All (λ c. (start ≤ c.old_end) × (c.old_start ≤ end)) cs
      → filtered cs ≡ cs
  unfolding filter_changes_in_range
  filtered_within [] h = refl
  filtered_within (c ∷ cs) h = ground (arith, filtered_within cs h.1)

  filtered_behind : (cs : List Change) → All (λ c. end < c.old_start) cs → filtered cs ≡ []
  unfolding filter_changes_in_range
  filtered_behind [] h = refl
  filtered_behind (c ∷ cs) h = ground (arith, filtered_behind cs h.1)

  pub filter-group :
      (before group behind : List Change)
      → All (λ c. c.old_end < start) before
      → All (λ c. (start ≤ c.old_end) × (c.old_start ≤ end)) group
      → All (λ c. end < c.old_start) behind
      → filter_changes_in_range (before ++ (group ++ behind)) start end ≡ group
  filter-group before group behind p q r =
      rw
        (
          filtered-append before (group ++ behind),
          filtered-append group behind,
          filtered_before before p,
          filtered_within group q,
          filtered_behind behind r,
        )
        (append-nil group)

module _ (old_lines new_lines : Lines) where
  -- All changes of a script lie between its ends.
  pub Leads-All :
      (k l gap i j : ℕ) (cs : List Change)
      → Leads old_lines new_lines k l gap i j cs
      → All (λ c. (i ≤ c.old_start) × (c.old_start ≤ c.old_end) × (c.old_end ≤ k)) cs
  Leads-All k l gap i j [] s = tt
  Leads-All k l gap i j (c ∷ cs) s = (
    (omega arith, s.2, s.5),
    All-mono (λ d h. (omega (arith, s.0.forward), h.1, h.2)) cs
        (Leads-All k l 1 c.old_end c.new_end cs s.7),
  )
