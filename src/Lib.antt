-- ===== src/Lib.antt =====
-- OneAuthWatch: the server that watches the quotas of AI providers. It polls the providers, follows
-- the cycles and sessions of their quotas in an SQLite database, notifies, serves a dashboard behind
-- a login, and updates itself.
--
-- Parts, files and code (paths from the root of the repository):
--
-- * Database (server/internal/store/store.go, codex_store.go): the tables that the parts share. A
--   table is a list of rows with the outcomes of the next statements (Fault), so that each theorem
--   says whether statements may fail. Sessions: `CreateSession`, `CloseOrphanedSessions`,
--   `CloseSession`, `UpdateSessionMaxRequests`, `IncrementSnapshotCount`. Cycles and CodexCycles:
--   create, close, update and query of the active cycle; Counting counts rows. Notifications: the
--   log and the push subscriptions. Transaction: `Begin`, `Exec` and `Commit` with the rollback.
--   CodexSnapshots: `InsertCodexSnapshot`. Accounts: the accounts of the providers, by name; External
--   by the provider's identifier and by id; Merging `MergeCodexAccountData` and
--   `DeduplicateProviderAccounts`, with Whole, Target, Sources, Single and Total for what they leave;
--   Valid, Keys and Operations for the keys of the table; Creation for the row of the account that is returned.
-- * SessionManager (server/internal/agent/session_manager.go): `ReportPoll` is `report_poll`,
--   `closeSession` is `close_active`. Children: Tracking (the active session has an open row),
--   Orphans (no other row stays open), Accounts (what the row of a session says).
-- * Manager (server/internal/agent/manager.go): Steps has the agents' life as steps between critical
--   sections of the lock; `Start` is `on_begin`, `on_factory` and `on_finish`, the end of its
--   goroutine is `on_exit`. Children: Safety and Lost.
-- * Agent (server/internal/agent/codex_agent.go, codex_agent_manager.go): Codex has `poll`, which
--   refreshes tokens, asks the API, pauses after failures, and reports to the tracker, the session
--   manager and the notifier; Paused, Failures, Resume and Sound say when it asks and what it keeps.
--   Profiles has the manager that keeps an agent for each profile on disk: `scanForProfileChanges` is
--   `scan_for_profile_changes`, the end of a goroutine is `on_exit`.
-- * Tracker (server/internal/tracker/tracker.go, codex_tracker.go): Synthetic and Codex have
--   `Process` and `processQuota`, which detect the reset of a quota, close its cycle and open the
--   next. A database error ends them where the code returns it.
-- * Web (server/internal/web/middleware.go, security.go, handlers.go,
--   menubar.go): SessionStore has the tokens of
--   logins in the cache and the table (Refines has its specification, Promise that the store
--   implements it); SessionAuth decides which requests reach the handlers and
--   asks SessionStore; LoginLimiter blocks addresses after failed logins; Login has the handlers
--   (web/handlers.go) in which the limiter and the sessions meet; RateLimiter counts requests in a
--   window.
-- * Notify (server/internal/notify/notify.go): `Check` and `sendNotification`. Children: Log (the
--   entry of one quota and type), Once, Rearm, Severity.
-- * Update (server/internal/update/update.go): `compareVersions`, `Check` with its cache, and
--   `downloadWithRetry`.
-- * Config (server/internal/config/config.go): `Validate` and the queries on the providers.
-- * Setup (server/setup.go): the dialogue of a fresh setup, with its input helpers in Prompts; Enough
--   and EndOfInput for its loops, Accepted for the configuration, EnvFile for the .env file that it
--   writes and reads again, Rerun for a setup on an old file.
-- * Menubar (server/internal/menubar/config.go): `Normalize` of the settings; Normal and Stays.
-- * Prelude has numbers, lists, texts, maps and the clock for all of them.
--
-- Numbers and time: a time is a number of nanoseconds since Go's zero time, and the clock is an
-- argument of each operation. Quota values are numbers of units, at least 0 and added exactly, in
-- place of floating point; thresholds are fractions. Texts are lists of code points (in Setup
-- ASCII), and lower case is the ASCII part of it. Operations under a lock are one step;
-- `ValidateToken`, which reads the table between two locks, is one step too, so that no call comes in
-- between. Loops are recursion on their list;
-- the download loop is recursion on the attempts left, which is the bound of the code; the loops of
-- the setup have a bound on their rounds, of which one more than the lines of input is enough. A poll
-- of an agent gets the answers of the API and the files that it meets as an argument.
--
-- Parameters stand for what is not in the repository: the two password hashes, base64, the loopback
-- test of an address, the answers of GitHub, of the API of Codex and of the mail and push servers, and
-- SQLite's comparison of formatted times.
--
-- Not modelled: rendering of pages and JSON, the API clients, the other trackers, agents and their
-- tables, the environment of the configuration, the companion in the menu bar, the desktop client, and
-- operations on files and processes.
pub mod Prelude
pub mod Database
pub mod SessionManager
pub mod Manager
pub mod Tracker
pub mod Agent
pub mod Web
pub mod Notify
pub mod Update
pub mod Config
pub mod Setup
pub mod Menubar
