-- ===== src/Redis.antt =====
-- internal/gateway/redis.go: the Redis proxy.
pub mod Auth
pub mod Handle
