-- ===== src/Nbd.antt =====
-- ovirt_imageio/_internal/nbd.py: the NBD client.
pub mod Extents
pub mod Wire
pub mod Sock
pub mod Command
pub mod Client
pub mod Reply
pub mod Requests
pub mod Handshake
