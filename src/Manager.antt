-- ===== src/Manager.antt =====
-- The agent manager of server/internal/agent/manager.go.
pub mod Steps
pub mod Entries
pub mod Safety
pub mod Lost
mod Tests
