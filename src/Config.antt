-- ===== src/Config.antt =====
-- internal/config: the configuration, its validation, and the permissions of its file.
pub mod Types
pub mod Validate
pub mod Acl
pub mod Load
