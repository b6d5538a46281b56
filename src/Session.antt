-- ===== src/Session.antt =====
-- app/core/auth/session: the session storage and the session manager.
pub mod Storage
pub mod Schemas
pub mod Manager
pub mod Lifecycle
pub mod Login
pub mod Dependencies
pub mod Redis
mod Tests
mod RequestTests
mod RedisTests
