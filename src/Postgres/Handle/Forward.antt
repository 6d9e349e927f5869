-- ===== src/Postgres/Handle/Forward.antt =====
-- The messages of the startup that `forwardStartup` passes on.
use credential_gateway.Common.{
  ℕ, suc, ◌+◌, ◌-◌, ◌^◌, ◌≤◌, ◌<◌, ◌≡◌, refl, ap, ◌∙◌, Bytes, List, false, [], ◌∷◌, ◌++◌, length,
  All, arith, length-append, append_assoc, ◌==◌,
}
use credential_gateway.Net.Conn.{Conn, wrote, with_inbound}
use credential_gateway.Net.Conn.Laws.{wrote_nil, wrote-wrote}
use credential_gateway.Net.World.{World}
use credential_gateway.Net.Pipe.{pipe}
use credential_gateway.Postgres.Message.RoundTrip.{
  message_frame, read_message-frame, write_message-frame,
}
use credential_gateway.Postgres.Handle.{forward_startup}

-- Messages, each a type and a body, one behind the other.
abbrev pub frames : List (ℕ × Bytes) → Bytes
frames [] = []
frames ((t, b) ∷ ms) = message_frame t b ++ frames ms

abbrev pub Fits : ℕ × Bytes → Type 0
Fits (t, b) = length b + 4 < 2 ^ 32

-- A message before ReadyForQuery.
abbrev pub Earlier : ℕ × Bytes → Type 0
Earlier m = ((m.0 == b'Z') ≡ false) × Fits m

-- Every message has five bytes.
length-frames : (ms : List (ℕ × Bytes)) → length ms ≤ length (frames ms)
length-frames [] = omega arith
length-frames ((t, b) ∷ ms) =
    omega (arith, length-frames ms, length-append (message_frame t b) (frames ms))

no_more : (k : ℕ) → 0 + k ≡ k
no_more k = omega arith

one_more : (n k : ℕ) → suc n + k ≡ suc (n + k)
one_more n k = omega arith

-- The world after some bytes have been passed on.
abbrev pub passed : Bytes → Bytes → World → World
passed bs rest w = record w { client = wrote bs w.client; upstream = with_inbound rest w.upstream }

forward_startup_once :
    (t : ℕ) (b : Bytes) (f : ℕ) (rest : Bytes) (w : World)
    → Earlier (t, b)
    → w.upstream.inbound ≡ message_frame t b ++ rest
    → length (message_frame t b) ≤ w.client.capacity
    → forward_startup (suc f) w ≡ forward_startup f (passed (message_frame t b) rest w)
unfolding forward_startup
forward_startup_once t b f rest w (other, fits) e room =
    rw (read_message-frame t b rest w.upstream fits e)
      (rw (write_message-frame t b w.client room, other))

forward_startup-frames :
    (ms : List (ℕ × Bytes)) (k : ℕ) (last : Bytes) (w : World)
    → All Earlier ms
    → w.upstream.inbound ≡ frames ms ++ last
    → length (frames ms) ≤ w.client.capacity
    → forward_startup (length ms + k) w ≡ forward_startup k (passed (frames ms) last w)
forward_startup-frames [] k last w h e room =
    ap (λ f. forward_startup f w) (no_more k)
    ∙ ap (λ s. forward_startup k (record w { upstream = with_inbound s w.upstream })) e
    ∙ ap
        (λ (c : Conn).
          forward_startup k (record w { client = c; upstream = with_inbound last w.upstream }))
        (wrote_nil w.client)
forward_startup-frames ((t, b) ∷ ms) k last w (m, h) e room =
    let sizes = length-append (message_frame t b) (frames ms) in
    let next = passed (message_frame t b) (frames ms ++ last) w in
    ap (λ f. forward_startup f w) (one_more (length ms) k)
    ∙ forward_startup_once t b (length ms + k) (frames ms ++ last) w m
        (e ∙ append_assoc (message_frame t b) (frames ms) last) (omega (arith, room, sizes))
    ∙ forward_startup-frames ms k last next h refl (omega (arith, room, sizes))
    ∙ ap
        (λ (c : Conn).
          forward_startup k (record w { client = c; upstream = with_inbound last w.upstream }))
        (wrote-wrote (message_frame t b) (frames ms) w.client)

ready :
    (b : Bytes) (f : ℕ) (rest : Bytes) (w : World)
    → Fits (b'Z', b)
    → w.upstream.inbound ≡ message_frame b'Z' b ++ rest
    → length (message_frame b'Z' b) ≤ w.client.capacity
    → forward_startup (suc f) w ≡ pipe (passed (message_frame b'Z' b) rest w)
unfolding forward_startup
ready b f rest w fits e room =
    rw (read_message-frame b'Z' b rest w.upstream fits e)
      (rw (write_message-frame b'Z' b w.client room))

-- With an upstream that sends any messages and then ReadyForQuery, the client is sent all of them,
-- ReadyForQuery too, byte for byte, and then the pipe begins behind them: the rounds that the
-- loop is given are enough.
pub forward_startup_outcome :
    (ms : List (ℕ × Bytes)) (b rest : Bytes) (w : World)
    → All Earlier ms
    → Fits (b'Z', b)
    → w.upstream.inbound ≡ frames ms ++ (message_frame b'Z' b ++ rest)
    → length (frames ms ++ message_frame b'Z' b) ≤ w.client.capacity
    → forward_startup (suc (length w.upstream.inbound)) w
      ≡ pipe (passed (frames ms ++ message_frame b'Z' b) rest w)
forward_startup_outcome ms b rest w h fits e room =
    let last = message_frame b'Z' b ++ rest in
    let extra = length w.upstream.inbound - length ms in
    let sizes = length-append (frames ms) (message_frame b'Z' b) in
    let count : suc (length w.upstream.inbound) ≡ length ms + suc extra =
      omega (arith, length-frames ms, length-append (frames ms) last, ap length e) in
    ap (λ f. forward_startup f w) count
    ∙ forward_startup-frames ms (suc extra) last w h e (omega (arith, room, sizes))
    ∙ ready b extra rest (passed (frames ms) last w) fits refl (omega (arith, room, sizes))
    ∙ ap (λ (c : Conn). pipe (record w { client = c; upstream = with_inbound rest w.upstream }))
        (wrote-wrote (frames ms) (message_frame b'Z' b) w.client)
