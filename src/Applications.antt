-- ===== src/Applications.antt =====
-- The application catalogue of backend/app/services/applications: the install order of the
-- selected applications (resolver.py).
pub mod Catalog
pub mod Search
pub mod Fuel
pub mod Quiet
pub mod Found
pub mod Closed
pub mod Order
pub mod Counts
pub mod Edges
pub mod Depends
pub mod Kahn
pub mod Rounds
pub mod Resolve
pub mod Needed
pub mod Complete
pub mod Installed
pub mod Paths
pub mod Roots
