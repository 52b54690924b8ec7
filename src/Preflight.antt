-- ===== src/Preflight.antt =====
-- The preflight checks of backend/app/services/provisioning/preflight.py. The texts of the details
-- are left out: a check is its code, its label, its status and whether it blocks.
pub mod Report
pub mod Media
pub mod Inventory
pub mod Catalogue
pub mod Run
pub mod Ready
pub mod Verdict
