-- ===== src/Handlers/Validate/Laws.antt =====
-- `integer` of ovirt_imageio/_internal/validate.py.
