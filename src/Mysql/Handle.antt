-- ===== src/Mysql/Handle.antt =====
-- internal/gateway/mysql.go: `(*mysqlProxy).handle`.
pub mod Paths
pub mod Isolation
use credential_gateway.Common.{
  ℕ, ◌+◌, ◌%◌, Bytes, Bool, false, List, [], ◌∷◌, ◌++◌, length, take, ltb, ◌==◌, if◌then◌else◌,
}
use credential_gateway.Common.Texts.{codes, is_empty}
use credential_gateway.Common.Words.{of_le}
use credential_gateway.Net.Exit.{
  Exit, failed, response_too_short, unsupported_plugin, upstream_rejected,
}
use credential_gateway.Net.Exit.Action.{Action, pure, fail, lift, guard_not, ◌>>=◌, ◌>>◌}
use credential_gateway.Net.World.{World, on_client, on_upstream, dial}
use credential_gateway.Net.Pipe.{pipe}
use credential_gateway.Mysql.Packet.{read_packet, write_packet}
use credential_gateway.Mysql.Handshake.{parse_nonce, clear_ssl}
use credential_gateway.Mysql.Response.{parse_database, build_response}
use credential_gateway.Mysql.Switch.{parse_auth_switch_plugin, build_err_packet}

-- config.MySQLService without its addresses, which the connections stand for.
pub record Service : Type 0 where
  pub user : Bytes
  pub password : Bytes
  pub database : Bytes

-- `len(result) > 0 && result[0] == b`.
abbrev pub starts_with : ℕ → Bytes → Bool
starts_with b [] = false
starts_with b (x ∷ xs) = x == b

-- The database of the configuration, or else the one that the client asked for.
abbrev pub chosen_database : Service → Bytes → ℕ → Bytes
chosen_database cfg resp caps =
    if is_empty cfg.database then parse_database resp caps else cfg.database

-- `quote` stands for the verb `%q` of `fmt.Sprintf`.
module _ (quote : Bytes → Bytes) where
  unfoldable pub switch_message : Bytes → Bytes
  switch_message plugin =
      codes "credential-gateway: upstream requested unsupported auth plugin "
      ++ (quote plugin
          ++ codes
              "; only mysql_native_password is supported (run: ALTER USER <user> IDENTIFIED WITH mysql_native_password BY '<password>')")

  -- The auth-switch branch: an error packet for the client, whose write may fail, and the end.
  unfoldable pub refuse_switch : ℕ → ℕ → Bytes → Action World (ℕ × ℕ)
  unfolding switch_message
  refuse_switch client_seq caps result w =
      let plugin = parse_auth_switch_plugin result in
      let packet = build_err_packet caps (switch_message plugin) in
      let (_, w') = on_client (write_packet ((client_seq + 1) % 256) packet) w in
      (failed (unsupported_plugin plugin), w')

  -- Steps 6 and 7: what the upstream answered, and the pipe.
  unfoldable pub relay_result : ℕ → ℕ → ℕ → Bytes → Action World (ℕ × ℕ)
  relay_result client_seq caps seq result =
      if starts_with 0xfe result then refuse_switch client_seq caps result else do
        on_client (write_packet seq result)
        guard_not (starts_with 0xff result) upstream_rejected
        pipe

  -- `handle`: an error of any step is logged and ends it, and both connections are closed at the
  -- end in any case. The result is the two counts of the pipe.
  unfoldable pub handle : Service → Action World (ℕ × ℕ)
  handle cfg = do
    dial
    (seq, handshake) ← on_upstream read_packet
    nonce ← lift (parse_nonce handshake)
    on_client (write_packet seq (clear_ssl handshake))
    (client_seq, resp) ← on_client read_packet
    guard_not (ltb (length resp) 4) response_too_short
    let caps = of_le (take 4 resp)
    let response = build_response cfg.user cfg.password nonce (chosen_database cfg resp caps)
    on_upstream (write_packet 1 response)
    (result_seq, result) ← on_upstream read_packet
    relay_result client_seq caps result_seq result
