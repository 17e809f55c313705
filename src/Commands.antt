-- ===== src/Commands.antt =====
-- internal/commands: duplicate detection and the command handler.
pub mod Dedupe
pub mod Handler
