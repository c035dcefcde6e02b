-- ===== src/Agent.antt =====
-- The polling agents of server/internal/agent. Their starts and stops are in `Manager`, the usage
-- sessions they report to in `SessionManager`.
pub mod Codex
pub mod Profiles
