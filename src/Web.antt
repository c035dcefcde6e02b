-- ===== src/Web.antt =====
-- The web server's protection against abuse and its sessions: server/internal/web/security.go and
-- middleware.go.
pub mod RateLimiter
pub mod LoginLimiter
pub mod SessionStore
pub mod SessionAuth
pub mod Login
