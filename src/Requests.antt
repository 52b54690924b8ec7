-- ===== src/Requests.antt =====
-- The provisioning request of backend/app/schemas/provisioning.py: its fields, its validators and
-- the names that are derived from it.
pub mod Letters
pub mod Patterns
pub mod Schema
pub mod Validate
pub mod Identity
pub mod Fields
pub mod Names
pub mod Windows
pub mod Limits
