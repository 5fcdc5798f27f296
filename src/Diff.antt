-- ===== src/Diff.antt =====
-- internal/tool/diff/diff.go: unified and structured diffs of two texts.
pub mod Lcs
pub mod Changes
pub mod Hunk
pub mod Split
pub mod Structured
pub mod Text
mod Tests
