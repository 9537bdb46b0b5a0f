-- ===== src/Command.antt =====
-- cmd/promptnet/main.go
pub mod Tokens
pub mod Setup
pub mod Guarded
pub mod Prompts
pub mod Examples
pub mod Diff
