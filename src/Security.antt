-- ===== src/Security.antt =====
-- app/core/security: what the configuration of a production environment is checked for.
pub mod Characters
pub mod Validator
pub mod Warnings
mod Tests
