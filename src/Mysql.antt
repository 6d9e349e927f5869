-- ===== src/Mysql.antt =====
-- internal/gateway/mysql.go: the MySQL proxy.
pub mod Packet
pub mod Handshake
pub mod Response
pub mod Switch
pub mod Handle
