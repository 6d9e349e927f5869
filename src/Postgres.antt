-- ===== src/Postgres.antt =====
-- internal/gateway/postgres.go: the PostgreSQL proxy.
pub mod Message
pub mod Startup
pub mod Replies
pub mod Scram
pub mod Handle
