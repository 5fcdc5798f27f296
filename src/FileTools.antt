-- ===== src/FileTools.antt =====
-- The tools that read, write and list files, internal/tool/builtin/read_file.go, write_file.go and
-- list_files.go.
pub mod Read
pub mod Scanning
pub mod Shown
pub mod Write
pub mod Listed
mod Tests
