-- ===== src/Mysql/Response.antt =====
-- internal/gateway/mysql.go: the client's login packet, HandshakeResponse41.
pub mod RoundTrip
pub mod Scramble
use credential_gateway.Common.{
  ℕ, ◌+◌, ◌-◌, ◌*◌, ◌%◌, ◌^◌, bit_and, bit_or, Bytes, List, [], ◌∷◌, ◌++◌, length, get_or, take,
  drop, replicate, leb, ◌==◌, if◌then◌else◌,
}
use credential_gateway.Common.Texts.{codes, is_empty, nul_index}
use credential_gateway.Common.Words.{le32}
use credential_gateway.Std.Digest.{xor_bytes}
use credential_gateway.Std.Digest.Sha1.{sha1}

-- `mysqlParseDatabase`: "" unless CLIENT_CONNECT_WITH_DB is set and the packet is long enough.
unfoldable pub database_at : Bytes → ℕ → Bytes
database_at payload pos =
    if leb (length payload) pos then [] else take (nul_index (drop pos payload)) (drop pos payload)

unfoldable pub after_user : Bytes → ℕ → Bytes
unfolding database_at
after_user payload pos =
    if leb (length payload) pos then [] else database_at payload (pos + (1 + get_or payload pos 0))

unfoldable pub parse_database : Bytes → ℕ → Bytes
unfolding after_user
parse_database payload caps =
    if bit_and caps 0x00000008 == 0
    then []
    else if leb (length payload) 32
    then []
    else after_user payload (32 + nul_index (drop 32 payload) + 1)

-- `mysqlScramble`: SHA1(password) XOR SHA1(nonce + SHA1(SHA1(password))).
unfoldable pub scramble : Bytes → Bytes → Bytes
scramble nonce password =
    let h1 = sha1 password in
    let h2 = sha1 h1 in if is_empty password then [] else xor_bytes (sha1 (nonce ++ h2)) h1

-- clientLongPassword, clientProtocol41, clientTransactions, clientSecureConn, clientPluginAuth.
abbrev pub base_caps : ℕ
base_caps = bit_or (bit_or (bit_or (bit_or 0x00000001 0x00000200) 0x00002000) 0x00008000) 0x00080000

abbrev pub response_caps : Bytes → ℕ
response_caps database = if is_empty database then base_caps else bit_or base_caps 0x00000008

abbrev pub plugin_name : Bytes
plugin_name = codes "mysql_native_password"

-- `mysqlBuildResponse`.
unfoldable pub build_response : Bytes → Bytes → Bytes → Bytes → Bytes
build_response user password nonce database =
    let auth = scramble nonce password in
    le32 (response_caps database)
    ++ (le32 (2 ^ 24 - 1)
        ++ (45
            ∷ (replicate 23 0
                ++ (user
                    ++ (0
                        ∷ (length auth % 256)
                        ∷ (auth
                            ++ ((if is_empty database then [] else database ++ (0 ∷ []))
                                ++ (plugin_name ++ (0 ∷ [])))))))))
