-- ===== src/Database.antt =====
-- The SQLite database behind server/internal/store: one table at a time, with the failures that a
-- statement may report.
pub mod Fault
pub mod Counting
pub mod Sessions
pub mod Cycles
pub mod CodexCycles
pub mod Notifications
pub mod Transaction
pub mod CodexSnapshots
pub mod Accounts
