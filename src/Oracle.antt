-- ===== src/Oracle.antt =====
-- internal/gateway/oracle.go, from its packets up to `handle`.
pub mod Tns
pub mod Ttc
pub mod Handle
