-- ===== src/Tests.antt =====
-- Examples.
pub mod Ranges
pub mod Images
pub mod Operations
pub mod Tickets
pub mod Requests
pub mod Disk
pub mod Nbd
pub mod Checksum
