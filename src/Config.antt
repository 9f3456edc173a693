-- ===== src/Config.antt =====
-- smbpal/config: the configuration document, its validation and the ids of its records.
pub mod Json
pub mod Schema
pub mod Ids
pub mod Naming
pub mod Mountpoint
pub mod UnitSource
pub mod Operations
