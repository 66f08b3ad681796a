-- ===== src/Server.antt =====
-- server/internal/app: the server. Its children model its tables, its secret keys, its toggles and
-- their rules, its logins and its approval workflow.
pub mod Db
pub mod Keys
mod Tests
pub mod User
pub mod Approval
pub mod Toggles
pub mod RateLimiter
pub mod Rules
pub mod Validation
pub mod Auth
pub mod Audit
pub mod Teams
pub mod Users
