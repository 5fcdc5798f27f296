-- ===== src/Diff/Changes.antt =====
-- findChanges of internal/tool/diff/diff.go: the gaps between the matched lines.
pub mod Script
pub mod Cuts
pub mod Patch
use kontekst.Prelude.{ℕ, ◌+◌, List, [], ◌∷◌, ◌||◌, length, ltb, if◌then◌else◌}
use kontekst.Diff.Lcs.{Lines, LcsMatch, compute_lcs}

-- The lines `old_start` up to `old_end` are replaced by the lines `new_start` up to `new_end`.
pub record Change : Type 0 where
  pub old_start : ℕ
  pub old_end : ℕ
  pub new_start : ℕ
  pub new_end : ℕ

-- The loop of findChanges over the matches that are left, and the change behind the last match.
unfoldable pub changes_from :
    Lines → Lines → (old_index new_index : ℕ) → List LcsMatch → List Change
changes_from old_lines new_lines old_index new_index [] =
    if ltb old_index (length old_lines) || ltb new_index (length new_lines)
    then record {
      old_start = old_index;
      old_end = length old_lines;
      new_start = new_index;
      new_end = length new_lines;
    }
      ∷ []
    else []
changes_from old_lines new_lines old_index new_index (m ∷ ms) =
    let rest = changes_from old_lines new_lines (m.old_index + 1) (m.new_index + 1) ms in
    if ltb old_index m.old_index || ltb new_index m.new_index
    then record {
      old_start = old_index;
      old_end = m.old_index;
      new_start = new_index;
      new_end = m.new_index;
    }
      ∷ rest
    else rest

unfoldable pub find_changes : Lines → Lines → List Change
find_changes old_lines new_lines =
    changes_from old_lines new_lines 0 0 (compute_lcs old_lines new_lines)
