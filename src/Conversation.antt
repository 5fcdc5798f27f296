-- ===== src/Conversation.antt =====
-- The conversation window, internal/conversation: the session file and the messages of a run.
pub mod File
pub mod Lines
pub mod Window
pub mod Snapshot
pub mod Counts
pub mod Log
pub mod Runs
pub mod Tail
pub mod Scanning
pub mod Breaks
pub mod Loading
mod Tests
