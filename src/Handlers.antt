-- ===== src/Handlers.antt =====
-- ovirt_imageio/_internal/handlers and validate.py: what the server does with a request.
pub mod Validate
pub mod Images
pub mod Tickets
pub mod Checksum
