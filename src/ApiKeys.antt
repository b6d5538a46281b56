-- ===== src/ApiKeys.antt =====
-- app/services/api_key.py and the reports of app/models/api_key.py.
pub mod Permission
pub mod Secret
pub mod Schemas
pub mod Service
pub mod Validation
pub mod Ownership
pub mod Issue
pub mod Usage
mod Tests
mod ServiceTests
