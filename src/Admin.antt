-- ===== src/Admin.antt =====
-- internal/admin and cmd/credential-gateway-admin: the web interface that edits the configuration file.
pub mod Server
pub mod Command
