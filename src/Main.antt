-- ===== src/Main.antt =====
-- cmd/bridge/main.go: the command line, the environment, and the life of the process.
pub mod Flags
pub mod Settings
pub mod Program
pub mod Outcome
mod Examples
