-- ===== src/Mounts.antt =====
-- The units of the mounts.
pub mod Units
pub mod UnitText
pub mod Paths
pub mod Mounter
