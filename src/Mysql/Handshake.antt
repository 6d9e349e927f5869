-- ===== src/Mysql/Handshake.antt =====
-- internal/gateway/mysql.go: the server's first packet, HandshakeV10.
pub mod Nonce
pub mod Ssl
use credential_gateway.Common.{
  ℕ, suc, ◌+◌, ◌-◌, ◌*◌, ◌/◌, ◌%◌, bit_and, bit_or, Bytes, Bool, not, List, [], ◌∷◌, ◌++◌, length,
  get_or, take, drop, set, max, ltb, ◌==◌, if◌then◌else◌,
}
use credential_gateway.Common.Texts.{nul_index}
use credential_gateway.Net.Exit.{
  Exit, done, failed, panicked, not_handshake, handshake_too_short, nonce_out_of_range, ◌>>=◌, ◌>>◌,
  fail_if, index,
}

-- The position behind the server version, a NUL-terminated string that starts at byte 1.
unfoldable pub version_end : Bytes → ℕ
version_end payload = 1 + nul_index (drop 1 payload) + 1

-- `auth_plugin_data_len`, read only if CLIENT_PLUGIN_AUTH stands in the upper capabilities.
abbrev pub auth_data_length : ℕ → Bytes → ℕ → Exit ℕ
auth_data_length cap_high payload pos =
    if bit_and cap_high 0x0008 == 0 then done 0 else index payload pos

-- The rest of `mysqlParseNonce`, from the position behind the version on. `authDataLen - 8` may
-- be negative in the source, and is then raised to 13 as well.
unfoldable pub nonce_at : Bytes → ℕ → Exit Bytes
nonce_at payload pos = do
  fail_if (ltb (length payload) (pos + 13)) handshake_too_short
  low ← index payload (pos + 18)
  high ← index payload (pos + 19)
  n ← auth_data_length (bit_or low (high * 256)) payload (pos + 20)
  fail_if (ltb (length payload) (pos + 31 + max 13 (n - 8))) nonce_out_of_range
  done (take 8 (drop (pos + 4) payload) ++ take 12 (drop (pos + 31) payload))

-- `mysqlParseNonce`. On an empty payload the error message itself reads `payload[0]`.
unfoldable pub parse_nonce : Bytes → Exit Bytes
unfolding nonce_at version_end
parse_nonce [] = panicked
parse_nonce (b ∷ rest) =
    if b == 0x0a then nonce_at (b ∷ rest) (version_end (b ∷ rest)) else failed not_handshake

-- The position of `capability_flags_1`.
unfoldable pub flags_position : Bytes → ℕ
unfolding version_end
flags_position payload = version_end payload + (4 + 8 + 1)

-- `capLow &^= 0x0800` on the 16 bits that stand at `pos`.
unfoldable pub cleared_flags : Bytes → ℕ → ℕ
cleared_flags payload pos =
    bit_and (bit_or (get_or payload pos 0) (get_or payload (pos + 1) 0 * 256)) 0xf7ff

-- `mysqlClearSSL`, which writes into the payload.
unfoldable pub clear_ssl : Bytes → Bytes
unfolding flags_position cleared_flags
clear_ssl payload =
    let pos = flags_position payload in
    let flags = cleared_flags payload pos in
    if ltb (pos + 1) (length payload)
    then set (set payload pos (flags % 256)) (pos + 1) (flags / 256 % 256)
    else payload
