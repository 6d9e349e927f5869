-- ===== src/Mysql/Switch.antt =====
-- internal/gateway/mysql.go: the request for another auth plugin, and the error that answers it.
pub mod Reading
use credential_gateway.Common.{
  ℕ, ◌/◌, ◌%◌, bit_and, Bytes, [], ◌∷◌, ◌++◌, take, ◌==◌, if◌then◌else◌,
}
use credential_gateway.Common.Texts.{codes, nul_index}

-- `mysqlParseAuthSwitchPlugin`: the name behind 0xfe, up to a NUL or the end.
unfoldable pub parse_auth_switch_plugin : Bytes → Bytes
parse_auth_switch_plugin (b ∷ c ∷ rest) =
    if b == 0xfe then take (nul_index (c ∷ rest)) (c ∷ rest) else []
parse_auth_switch_plugin _ = []

-- `mysqlBuildErrPacket`: error 1251, and the SQLSTATE if CLIENT_PROTOCOL_41 was negotiated.
unfoldable pub build_err_packet : ℕ → Bytes → Bytes
build_err_packet caps message =
    0xff
    ∷ (1251 % 256)
    ∷ (1251 / 256 % 256)
    ∷ ((if bit_and caps 0x00000200 == 0 then [] else b'#' ∷ codes "08004") ++ message)
