-- ===== src/Services.antt =====
-- app/services: the operations on users, tiers and rate limits, over the tables of the database.
pub mod Tier
pub mod RateLimits
pub mod User
mod Tests
