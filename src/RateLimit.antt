-- ===== src/RateLimit.antt =====
-- app/core/rate_limit and app/middleware/rate_limit.py: the counters of requests.
pub mod Path
pub mod Window
pub mod Backend
pub mod Redis
pub mod Memcached
pub mod Provider
pub mod Check
mod Tests
