-- ===== src/Std.antt =====
-- What the gateway uses of Go's standard library: message digests, base64, numbers in text.
pub mod Digest
pub mod Base64
pub mod Decimal
