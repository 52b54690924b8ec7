-- ===== src/Service.antt =====
-- backend/app/services/provisioning/service.py
pub mod Types
pub mod Submit
pub mod Manage
pub mod Reservations
pub mod Cancel
pub mod Retry
pub mod Replay
