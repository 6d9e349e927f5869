-- ===== src/Postgres/Handle/Login.antt =====
-- A whole login: the server's question, its answer, and the startup that is forwarded.
use credential_gateway.Common.{
  ℕ, suc, ◌-◌, ◌≤◌, ◌≡◌, refl, ap, ◌∙◌, Bytes, true, false, ◌++◌, length, arith, ltb, if◌then◌else◌,
  length-append, All,
}
use credential_gateway.Common.Words.{be32}
use credential_gateway.Net.Exit.{Exit, failed, signature_mismatch}
use credential_gateway.Net.Conn.{Conn, wrote, with_inbound}
use credential_gateway.Net.Conn.Laws.{wrote-wrote}
use credential_gateway.Net.World.{World, dial}
use credential_gateway.Net.Pipe.{pipe}
use credential_gateway.Config.Types.{PostgresService}
use credential_gateway.Postgres.Message.RoundTrip.{
  startup_frame, message_frame, write_startup-frame,
}
use credential_gateway.Postgres.Startup.{Params, build_startup}
use credential_gateway.Postgres.Handle.{chosen_database, auth_loop, begin, handle}
use credential_gateway.Postgres.Handle.Forward.{
  frames, Fits, Earlier, passed, forward_startup_outcome,
}
use credential_gateway.Postgres.Handle.Questions.{
  question_bytes, answer_bytes, proven, IsQuestion, answered, auth_loop-accepted,
  auth_loop-question,
}
use credential_gateway.Postgres.Handle.Script.{
  Script, acceptance, refusal, forwarded, IsScript, startup_taken,
}

-- The world behind a login, whatever the client's connection was before.
module _ (random : ℕ → Exit Bytes) (cfg : PostgresService) (params : Params) (s : Script) where
  abbrev pub upstream_sent : Bytes
  upstream_sent =
      startup_frame (build_startup cfg.user (chosen_database cfg params))
      ++ answer_bytes cfg s.question

  -- Refused by the gateway, since the server has not shown that it knows the password.
  abbrev pub unproven : World → World
  unproven w = record w {
    client = with_inbound s.client_rest (wrote (refusal s) w.client);
    upstream = with_inbound (acceptance s) (wrote upstream_sent w.upstream);
    dialled = true;
  }

  -- Where the pipe begins.
  abbrev pub logged_in : World → World
  logged_in w = record w {
    client = with_inbound s.client_rest (wrote (refusal s ++ forwarded s) w.client);
    upstream = with_inbound s.server_rest (wrote upstream_sent w.upstream);
    dialled = true;
  }

  -- From AuthenticationOK on.
  accepted_forwards :
      (g : ℕ) (w : World)
      → All Earlier s.settings
      → Fits (b'Z', s.ready)
      → w.upstream.inbound ≡ acceptance s
      → length (forwarded s) ≤ w.client.capacity
      → auth_loop random cfg (suc g) w ≡ pipe (passed (forwarded s) s.server_rest w)
  accepted_forwards g w settings ready e room =
      let ok = message_frame b'R' (be32 0) in
      let later = frames s.settings ++ (message_frame b'Z' s.ready ++ s.server_rest) in
      let sizes = length-append ok (frames s.settings ++ message_frame b'Z' s.ready) in
      auth_loop-accepted random cfg later g w e (omega (arith, room, sizes))
      ∙ forward_startup_outcome s.settings s.ready s.server_rest (passed ok later w) settings ready
          refl (omega (arith, room, sizes))
      ∙ ap
          (λ (c : Conn).
            pipe (record w { client = c; upstream = with_inbound s.server_rest w.upstream }))
          (wrote-wrote ok (frames s.settings ++ message_frame b'Z' s.ready) w.client)

  -- The loop, from the server's question on.
  auth_loop_outcome :
      (f : ℕ) (w : World)
      → IsQuestion random s.question
      → All Earlier s.settings
      → Fits (b'Z', s.ready)
      → w.upstream.inbound ≡ question_bytes s.question ++ acceptance s
      → length (answer_bytes cfg s.question) ≤ w.upstream.capacity
      → length (forwarded s) ≤ w.client.capacity
      → auth_loop random cfg (suc (suc f)) w ≡ (
          if proven cfg s.question
          then pipe (
              passed
                (forwarded s)
                s.server_rest
                (answered (answer_bytes cfg s.question) (acceptance s) w))
          else (failed signature_mismatch, answered (answer_bytes cfg s.question) (acceptance s) w))
  auth_loop_outcome f w question settings ready e room client_room =
      let (g, more, asked) =
        auth_loop-question random cfg s.question (acceptance s) (suc f) w question e room in
      let later = answered (answer_bytes cfg s.question) (acceptance s) w in
      let round : g ≡ suc (g - 1) = omega (arith, more) in
      asked
      ∙ ap (λ o. if proven cfg s.question then o else (failed signature_mismatch, later))
          (ap (λ n. auth_loop random cfg n later) round
            ∙ accepted_forwards (g - 1) later settings ready refl client_room)

  -- From `net.Dial` on.
  begin-auth_loop :
      (w : World)
      → w.reachable ≡ true
      → length (startup_frame (build_startup cfg.user (chosen_database cfg params)))
        ≤ w.upstream.capacity
      → begin random cfg params w
        ≡ auth_loop random cfg (suc (length w.upstream.inbound)) (record w {
          upstream =
              wrote
                (startup_frame (build_startup cfg.user (chosen_database cfg params)))
                w.upstream;
          dialled = true;
        })
  unfolding begin dial
  begin-auth_loop w up room = rw up (
      rw (write_startup-frame (build_startup cfg.user (chosen_database cfg params)) w.upstream room)
        refl)

  rounds :
      (stream : Bytes)
      → stream ≡ question_bytes s.question ++ acceptance s
      → suc (length stream) ≡ suc (suc (length stream - 1))
  rounds stream e =
      omega (arith, ap length e, length-append (question_bytes s.question) (acceptance s))

  begin_outcome :
      (w : World)
      → IsScript random cfg params s w
      → (v : World) → v.reachable ≡ true
      → v.upstream ≡ w.upstream
      → length (forwarded s) ≤ v.client.capacity
      → begin random cfg params v ≡ (
          if proven cfg s.question
          then pipe (record v {
            client = wrote (forwarded s) v.client;
            upstream = with_inbound s.server_rest (wrote upstream_sent v.upstream);
            dialled = true;
          })
          else (
            failed signature_mismatch,
            record v {
              upstream = with_inbound (acceptance s) (wrote upstream_sent v.upstream);
              dialled = true;
            },
          ))
  begin_outcome w h v up same client_room =
      let packet = startup_frame (build_startup cfg.user (chosen_database cfg params)) in
      let sizes = length-append packet (answer_bytes cfg s.question) in
      let next : World = record v { upstream = wrote packet v.upstream; dialled = true } in
      let room : length upstream_sent ≤ v.upstream.capacity = rw same h.upstream_room in
      let stream : v.upstream.inbound ≡ question_bytes s.question ++ acceptance s =
        rw same h.upstream in
      begin-auth_loop v up (omega (arith, room, sizes))
      ∙ ap (λ n. auth_loop random cfg n next) (rounds v.upstream.inbound stream)
      ∙ auth_loop_outcome (length v.upstream.inbound - 1) next h.question h.settings h.ready stream
          (omega (arith, room, sizes)) client_room
      ∙ ap
          (λ (c : Conn).
            if proven cfg s.question
            then pipe (record v {
              client = wrote (forwarded s) v.client;
              upstream = with_inbound s.server_rest c;
              dialled = true;
            })
            else (
              failed signature_mismatch,
              record v { upstream = with_inbound (acceptance s) c; dialled = true },
            ))
          (wrote-wrote packet (answer_bytes cfg s.question) v.upstream)

  -- Up to `net.Dial`.
  abbrev taken : World → World
  taken w = record w { client = with_inbound s.client_rest (wrote (refusal s) w.client) }

  long_startup : 4 ≤ length s.startup → ltb (length s.startup) 4 ≡ false
  long_startup h = ground arith

  handle-begin :
      (w : World)
      → IsScript random cfg params s w
      → handle random cfg w ≡ begin random cfg params (taken w)
  unfolding handle
  handle-begin w h =
      let sizes = length-append (refusal s) (forwarded s) in
      rw
        (startup_taken s.startup s.client_rest w h.startup_fits s.ssl h.protocol h.client
          (omega (arith, h.client_room, sizes)))
        (rw (long_startup h.startup_long, h.protocol, h.parsed) refl)

  -- A login that goes as the protocol says, with or without an SSLRequest, whatever the server
  -- asks. The upstream is sent the startup packet with the configured user, and the answer to its
  -- question. The client is sent `N` for an SSLRequest, AuthenticationOK and the messages up to
  -- ReadyForQuery, byte for byte, and then the pipe begins behind what each side sent; but if
  -- the server's SCRAM signature is not that of the password, `handle` ends with that error, and
  -- the client is sent nothing of the server's.
  pub handle_login :
      (w : World)
      → IsScript random cfg params s w
      → handle random cfg w ≡ (
          if proven cfg s.question
          then pipe (logged_in w)
          else (failed signature_mismatch, unproven w))
  handle_login w h =
      handle-begin w h
      ∙ begin_outcome w h (taken w) h.reachable refl
          (omega (arith, h.client_room, length-append (refusal s) (forwarded s)))
      ∙ ap
          (λ (c : Conn).
            if proven cfg s.question
            then pipe (record w {
              client = with_inbound s.client_rest c;
              upstream = with_inbound s.server_rest (wrote upstream_sent w.upstream);
              dialled = true;
            })
            else (failed signature_mismatch, unproven w))
          (wrote-wrote (refusal s) (forwarded s) w.client)
