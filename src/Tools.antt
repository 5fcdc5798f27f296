-- ===== src/Tools.antt =====
-- The tools of the agent, internal/tool/tools.go and RegisterAll of internal/tool/builtin/builtin.go.
pub mod Registry
pub mod Skill
pub mod WebFetch
pub mod Builtin
pub mod Below
pub mod Confined
pub mod Executor
pub mod Sandbox
pub mod Requests
mod Tests
