-- ===== src/Cmd.antt =====
-- cmd/cmd.go: the command line.
pub mod Seeds
pub mod Toolchain
pub mod Shell
pub mod Command
pub mod Cleanup
mod Tests
