-- ===== src/Command.antt =====
-- The commands that a user defines, internal/command and internal/tool/builtin/command.go.
pub mod Manifest
pub mod Registry
pub mod Environment
pub mod Tool
pub mod Valid
pub mod Complete
mod Tests
