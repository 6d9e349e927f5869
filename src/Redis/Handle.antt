-- ===== src/Redis/Handle.antt =====
-- internal/gateway/redis.go: `(*redisProxy).handle`.
pub mod Isolation
pub mod Commands
pub mod Whole
pub mod Login
use credential_gateway.Common.{
  ℕ, ◌+◌, Bytes, Bool, true, false, not, List, [], ◌∷◌, ◌++◌, length, if◌then◌else◌,
}
use credential_gateway.Common.Texts.{codes, is_empty, has_prefix}
use credential_gateway.Std.Decimal.{decimal}
use credential_gateway.Net.Exit.{Exit, done, failed, panicked, rejected_auth}
use credential_gateway.Net.Exit.Action.{Action, pure, guard_not, ◌>>=◌, ◌>>◌}
use credential_gateway.Net.Conn.{Conn, read_some, write}
use credential_gateway.Net.World.{World, on_upstream, dial}
use credential_gateway.Net.Reader.{Reader, buffered_source}
use credential_gateway.Net.Pipe.{pipe}
use credential_gateway.Redis.Auth.{trim_line, discard_client_auth}

-- The AUTH command with the configured password.
unfoldable pub auth_command : Bytes → Bytes
unfolding decimal
auth_command password =
    codes "*2\r\n$4\r\nAUTH\r\n$"
    ++ (decimal (length password) ++ (codes "\r\n" ++ (password ++ codes "\r\n")))

-- The command is sent, and the upstream has to answer it with +OK.
unfoldable pub exchange_auth : Bytes → Action World (Unit {0})
unfolding auth_command
exchange_auth password = do
  on_upstream (write (auth_command password))
  reply ← on_upstream (read_some 32)
  guard_not (not (has_prefix reply (codes "+OK"))) (rejected_auth (trim_line reply))

-- `if p.cfg.Password != ""`.
unfoldable pub authenticate : Bytes → Action World (Unit {0})
unfolding exchange_auth
authenticate password = if is_empty password then pure tt else exchange_auth password

abbrev pub with_buffer : Exit (Unit {0}) → Bytes → Exit Bytes
with_buffer (done u) bs = done bs
with_buffer (failed e) bs = failed e
with_buffer panicked bs = panicked

-- A reader before the client's connection, `discardClientAuth`, and what is left in the buffer.
unfoldable pub intercept : ℕ → Action World Bytes
intercept max_alloc w =
    let (o, r) =
      discard_client_auth max_alloc buffered_source (record { buffered = []; conn = w.client }) in
    (with_buffer o r.buffered, record w { client = r.conn })

-- `io.MultiReader(bytes.NewReader(head), client)` takes the place of the client's stream.
unfoldable pub prepend : Bytes → Action World (Unit {0})
prepend head w =
    let c = w.client in (done tt, record w { client = record c { inbound = head ++ c.inbound } })

-- `handle`: an error of any step is logged and ends it.
unfoldable pub handle : ℕ → Bytes → Action World (ℕ × ℕ)
unfolding intercept prepend authenticate
handle max_alloc password = do
  dial
  authenticate password
  head ← intercept max_alloc
  prepend head
  pipe
