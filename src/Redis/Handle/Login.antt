-- ===== src/Redis/Handle/Login.antt =====
-- A whole login of the Redis proxy.
use credential_gateway.Common.{
  ℕ, zero, suc, ◌≤◌, ◌≡◌, refl, ap, ◌∙◌, Bytes, true, false, [], ◌++◌, length, take, drop, min, max,
  arith,
}
use credential_gateway.Common.Texts.{codes, is_empty, has_prefix}
use credential_gateway.Net.Exit.{Exit, done, failed, panicked}
use credential_gateway.Net.Exit.Action.{Action, ◌>>=◌, ◌>>◌}
use credential_gateway.Net.Conn.{Conn, wrote, with_inbound, read_some}
use credential_gateway.Net.Conn.Laws.{write_done}
use credential_gateway.Net.World.{World, dial}
use credential_gateway.Net.Pipe.{pipe}
use credential_gateway.Net.Reader.{Reader, direct_source, buffered_source, view}
use credential_gateway.Redis.Auth.{ok_reply, discard_client_auth}
use credential_gateway.Redis.Auth.Buffered.{discard_client_auth_buffered}
use credential_gateway.Redis.Handle.{
  auth_command, exchange_auth, with_buffer, intercept, prepend, handle,
}
use credential_gateway.Redis.Handle.Commands.{
  ClientAuth, client_command, IsClientAuth, client_auth_taken,
}

-- How much of the upstream's stream the Read of the reply takes.
abbrev pub reply_size : World → ℕ
reply_size w = min 32 (max 1 w.upstream.chunk)

reply_begins :
    (n : ℕ) (more : Bytes) → 3 ≤ n → has_prefix (take n (codes "+OK" ++ more)) (codes "+OK") ≡ true
unfolding has_prefix
reply_begins zero more h = absurd (omega arith)
reply_begins (suc zero) more h = absurd (omega arith)
reply_begins (suc (suc zero)) more h = absurd (omega arith)
reply_begins (suc (suc (suc n))) more h = refl

module _ (next : Action World (ℕ × ℕ)) where
  -- The buffer is put back in front of the stream: nothing of the reader is seen behind it.
  put_back :
      (o : Exit (Unit {0})) (r : Reader) (w : World) {c : Conn}
      → ◌≡◌ {A = Exit (Unit {0}) × Conn} (o, view r) (done tt, c)
      → ((λ (v : World). (with_buffer o r.buffered, record v { client = r.conn })) >>= λ head.
            prepend head >> next)
          w
        ≡ next (record w { client = c })
  unfolding prepend
  put_back (done u) r w e = ap (λ (p : Exit (Unit {0}) × Conn). next (record w { client = p.1 })) e
  put_back (failed x) r w e = cc
  put_back panicked r w e = cc

  intercept_direct :
      (max_alloc : ℕ) (w : World) {c : Conn}
      → discard_client_auth max_alloc direct_source w.client ≡ (done tt, c)
      → (intercept max_alloc >>= λ head. prepend head >> next) w ≡ next (record w { client = c })
  unfolding intercept
  intercept_direct max_alloc w e =
      let r : Reader = record { buffered = []; conn = w.client } in
      let o = discard_client_auth max_alloc buffered_source r in
      put_back o.0 o.1 w (discard_client_auth_buffered max_alloc r ∙ e)

-- The world once the upstream has accepted the gateway's own AUTH.
abbrev pub authenticated : Bytes → World → World
authenticated password w = record w {
  upstream =
      with_inbound (drop (reply_size w) w.upstream.inbound)
        (wrote (auth_command password) w.upstream);
  dialled = true;
}

-- The upstream can be reached, takes the command, and answers it with +OK in one Read.
pub record Admits (password more : Bytes) (w : World) : Type 0 where
  pub reachable : w.reachable ≡ true
  pub reply : w.upstream.inbound ≡ codes "+OK" ++ more
  pub reply_whole : 3 ≤ w.upstream.chunk
  pub room : length (auth_command password) ≤ w.upstream.capacity

module _ (max_alloc : ℕ) (password more : Bytes) where
  handle_authenticates :
      (w : World)
      → is_empty password ≡ false
      → Admits password more w
      → handle max_alloc password w
        ≡ (intercept max_alloc >>= λ head. prepend head >> pipe) (authenticated password w)
  unfolding handle dial exchange_auth read_some
  handle_authenticates w given h =
      let begins : has_prefix (take (reply_size w) (codes "+OK" ++ more)) (codes "+OK") ≡ true =
        reply_begins (reply_size w) more (omega (arith, h.reply_whole)) in
      rw (h.reachable) (
        rw (given) (
          rw (write_done (auth_command password) w.upstream h.room)
            (rw (h.reply) (rw begins refl))))

  -- With an upstream that admits the gateway, whatever the client sends first: `handle` sends the
  -- upstream one AUTH command with the configured password and becomes the pipe, on which the
  -- client's stream is what `discardClientAuth` leaves of it, where that succeeds.
  pub handle_admitted :
      (w : World) (c : Conn)
      → is_empty password ≡ false
      → Admits password more w
      → discard_client_auth max_alloc direct_source w.client ≡ (done tt, c)
      → handle max_alloc password w ≡ pipe (record (authenticated password w) { client = c })
  handle_admitted w c given h e =
      handle_authenticates w given h ∙ intercept_direct pipe max_alloc (authenticated password w) e

  -- A client whose stream opens with an AUTH command, the name in any case: an array of the name
  -- and a password of fewer than 2^63 bytes for which there is memory, or a line of the name alone
  -- or of the name, a space or a carriage return, and anything. It gets +OK, and its command goes
  -- nowhere: the upstream, which admits the gateway, is sent one AUTH command with the configured
  -- password, and the pipe begins with what the client sends behind its own.
  pub handle-auth_command :
      (auth : ClientAuth) (rest : Bytes) (w : World)
      → is_empty password ≡ false
      → Admits password more w
      → w.client.inbound ≡ client_command auth ++ rest
      → IsClientAuth max_alloc auth
      → length ok_reply ≤ w.client.capacity
      → handle max_alloc password w
        ≡ pipe (record (authenticated password w) {
          client = wrote ok_reply (with_inbound rest w.client);
        })
  handle-auth_command auth rest w given h e is_auth reply =
      handle_admitted w _ given h (client_auth_taken max_alloc w.client auth rest is_auth e reply)
