-- ===== src/Auth.antt =====
-- internal/auth: sessions, refresh tokens, lockout and the audit log.
pub mod Audit
pub mod Passwords
pub mod Store
pub mod Rows
pub mod Service
pub mod Login
pub mod Refresh
pub mod Access
mod Examples
