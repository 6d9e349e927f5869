-- ===== src/Oracle/Handle.antt =====
-- internal/gateway/oracle.go: `(*oracleProxy).handle` and `doAuth`.
pub mod Session
pub mod Stages
pub mod Logins
pub mod Isolation
pub mod Outcome
pub mod Login
pub mod Whole
pub mod Fuel
use credential_gateway.Common.{
  ℕ, zero, suc, ◌+◌, Bytes, not, ◌&&◌, length, get_or, ltb, ◌==◌, if◌then◌else◌,
}
use credential_gateway.Common.Texts.{is_empty}
use credential_gateway.Net.Exit.{
  Exit, done, failed, panicked, fail_if, refused, unexpected_type, not_o3log, auth_rejected,
  out_of_fuel,
}
use credential_gateway.Net.Exit.Action.{Action, pure, fail, lift, guard_not, ◌>>=◌, ◌>>◌}
use credential_gateway.Net.World.{World, on_client, on_upstream, dial}
use credential_gateway.Net.Pipe.{pipe}
use credential_gateway.Config.Types.{OracleService}
use credential_gateway.Oracle.Tns.{read_tns, write_tns, read_data}
use credential_gateway.Oracle.Ttc.{
  build_connect, build_o3log, build_o3auth, fake_session_key, auth_ok, extract_salt, is_auth_ok,
  compute_auth,
}

-- The refusal is passed to the client, whether or not that succeeds.
unfoldable pub refuse : Bytes → Action World Bytes
refuse body w = (failed refused, (on_client (write_tns 4 body) w).1)

-- `switch pt`. An ACCEPT without a body leaves `acceptBody` nil, and the loop reads on.
unfoldable pub answer_connect : Bytes → ℕ × Bytes → Action World Bytes → Action World Bytes
unfolding refuse
answer_connect connect p next =
    if p.0 == 11
    then (on_upstream (write_tns 1 connect) >> next)
    else if p.0 == 4
    then refuse (p.1)
    else if p.0 == 2
    then (if is_empty (p.1) then next else pure (p.1))
    else fail (unexpected_type (p.0))

-- The loop that reads the answer to CONNECT, up to the body of ACCEPT.
unfoldable pub connect_loop : ℕ → Bytes → Action World Bytes
unfolding answer_connect
connect_loop zero connect = fail out_of_fuel
connect_loop (suc f) connect = do
  p ← on_upstream read_tns
  answer_connect connect p (connect_loop f connect)

-- The test of the client's O3LOG. The message of the error reads the third byte in any case.
abbrev pub check_o3log : Bytes → Exit (Unit {0})
check_o3log body =
    if ltb (length body) 3 then panicked else fail_if (not (get_or body 2 0 == 0x76)) not_o3log

-- The round of native services: each side's packet goes to the other.
unfoldable pub negotiate : Action World (Unit {0})
negotiate = do
  ns ← on_upstream read_data
  on_client (write_tns 6 ns)
  response ← on_client read_data
  on_upstream (write_tns 6 response)

-- The session key and the token: the client gets a dummy key, and its token is dropped.
unfoldable pub prove : OracleService → Action World (Unit {0})
prove cfg = do
  session ← on_upstream read_data
  on_client (write_tns 6 fake_session_key)
  o3auth ← on_client read_tns
  on_upstream
      (write_tns 6 (build_o3auth cfg.user (compute_auth cfg.password (extract_salt session))))
  result ← on_upstream read_tns
  guard_not (not (result.0 == 6 && is_auth_ok (result.1))) auth_rejected
  on_client (write_tns 6 auth_ok)

-- The login: the client's own is read, tested and dropped.
unfoldable pub log_in : OracleService → Action World (Unit {0})
unfolding prove
log_in cfg = do
  o3log ← on_client read_data
  lift (check_o3log o3log)
  on_upstream (write_tns 6 (build_o3log cfg.user))
  prove cfg

-- `doAuth`.
unfoldable pub do_auth : OracleService → Action World (Unit {0})
unfolding negotiate log_in
do_auth cfg = negotiate >> log_in cfg

-- Every round of the loop takes a packet of 8 bytes at least, so as many rounds as there are
-- bytes are enough.
abbrev pub connect_all : Bytes → Action World Bytes
connect_all connect w = connect_loop (suc (length w.upstream.inbound)) connect w

-- From `net.Dial` on.
unfoldable pub relay : (Bytes → Bytes) → OracleService → Action World (ℕ × ℕ)
unfolding connect_loop do_auth
relay to_upper cfg = do
  dial
  on_upstream (write_tns 1 (build_connect to_upper cfg.service))
  accept_body ← connect_all (build_connect to_upper cfg.service)
  on_client (write_tns 2 accept_body)
  do_auth cfg
  pipe

-- `handle`: an error of any step is logged and ends it.
unfoldable pub handle : (Bytes → Bytes) → OracleService → Action World (ℕ × ℕ)
unfolding relay
handle to_upper cfg = do
  p ← on_client read_tns
  guard_not (not (p.0 == 1)) (unexpected_type (p.0))
  relay to_upper cfg
