-- ===== src/Agent.antt =====
-- The agent of internal/agent: the approval of tool calls, their execution and the loop of a run.
pub mod Approvals
pub mod Verdicts
pub mod Decisions
pub mod Types
pub mod Tools
pub mod Loop
pub mod Registry
pub mod Runner
pub mod Safety
pub mod Trace
pub mod Ending
pub mod Keeps
pub mod Execution
mod Tests
