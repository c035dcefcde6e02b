-- ===== src/Tracker.antt =====
-- The reset-cycle trackers of server/internal/tracker.
pub mod Synthetic
pub mod Codex
