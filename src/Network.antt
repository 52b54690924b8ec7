-- ===== src/Network.antt =====
-- The address checks of backend/app/services/network: IPv4 addresses and subnets, masks, the
-- validation of a static address, and the conflict check.
pub mod Address
pub mod Masks
pub mod Static
pub mod Usable
pub mod Conflict
