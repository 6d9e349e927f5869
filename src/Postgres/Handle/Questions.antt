-- ===== src/Postgres/Handle/Questions.antt =====
-- What a PostgreSQL server may ask of the gateway, and what `auth_loop` does about it.
use credential_gateway.Common.{
  ℕ, suc, ◌+◌, ◌^◌, ◌≤◌, ◌<◌, ◌≡◌, refl, ap, ◌∙◌, Bytes, Bool, true, false, List, [], ◌∷◌, ◌++◌,
  length, arith, take, ltb, if◌then◌else◌, take_all, append_assoc, All,
}
use credential_gateway.Common.Texts.{codes, equal}
use credential_gateway.Common.Words.{be32, of_be-be32}
use credential_gateway.Net.Exit.Action.{Action, continue}
use credential_gateway.Net.Conn.Laws.{wrote_nil, wrote-wrote}
use credential_gateway.Net.Exit.{Exit, Fault, done, failed, signature_mismatch}
use credential_gateway.Net.Conn.{Conn, wrote, with_inbound}
use credential_gateway.Net.World.{World}
use credential_gateway.Config.Types.{PostgresService}
use credential_gateway.Postgres.Message.RoundTrip.{
  message_frame, read_message-frame, write_message-frame,
}
use credential_gateway.Postgres.Startup.{terminated, build_password_message}
use credential_gateway.Postgres.Startup.Mechanisms.{
  names_wire, IsName, parse_sasl_mechanisms-names_wire,
}
use credential_gateway.Postgres.Replies.{md5_password}
use credential_gateway.Postgres.Scram.{parse_attributes, attribute, server_signature}
use credential_gateway.Postgres.Scram.Exchange.{auth_type}
use credential_gateway.Postgres.Scram.Exchange.Outcome.{
  Exchanged, IsChoice, Plays, auth_body, own_nonce, asked, first_body, final_body, challenge,
  exchange_sent, do_scram_outcome,
}
use credential_gateway.Postgres.Handle.{contains, answer_auth, auth_loop, forward_startup}
use credential_gateway.Postgres.Handle.Forward.{passed}

-- A server lets the gateway in, or asks for the MD5 of the password with a salt, or offers
-- mechanisms of which SCRAM-SHA-256 is one and plays its part of the exchange.
pub data Question : Type 0 where
  trust : Question
  ask_md5 : Bytes → Question
  ask_sasl : List Bytes → Exchanged → Question

-- What the server sends.
abbrev pub question_bytes : Question → Bytes
question_bytes trust = []
question_bytes (ask_md5 salt) = message_frame b'R' (auth_body 5 salt)
question_bytes (ask_sasl names x) =
    message_frame b'R' (auth_body 10 (names_wire names))
    ++ (message_frame b'R' (auth_body 11 (asked x))
        ++ message_frame b'R' (auth_body 12 x.server_final))

-- What the gateway answers.
abbrev pub answer_bytes : PostgresService → Question → Bytes
answer_bytes cfg trust = []
answer_bytes cfg (ask_md5 salt) =
    message_frame b'p' (terminated (md5_password cfg.user cfg.password salt))
answer_bytes cfg (ask_sasl names x) = exchange_sent cfg.password x

-- The server has shown that it knows the password, where it has to.
abbrev pub proven : PostgresService → Question → Bool
proven cfg trust = true
proven cfg (ask_md5 salt) = true
proven cfg (ask_sasl names x) =
    equal (attribute b'v' (parse_attributes x.server_final))
      (server_signature cfg.password (own_nonce x) (asked x) (challenge (own_nonce x) x.choice))

-- The lengths fit their fields, and `random` gives what the exchange is played with.
module _ (random : ℕ → Exit Bytes) where
  pub record IsExchange (names : List Bytes) (x : Exchanged) : Type 0 where
    pub names_fit : length (auth_body 10 (names_wire names)) + 4 < 2 ^ 32
    pub asked_fits : length (auth_body 11 (asked x)) + 4 < 2 ^ 32
    pub final_fits : length (auth_body 12 x.server_final) + 4 < 2 ^ 32
    pub choice : IsChoice (own_nonce x) x.choice
    pub named : All IsName names
    pub supported : contains (codes "SCRAM-SHA-256") names ≡ true
    pub drawn : (f : ℕ) → random f ≡ done x.random

  abbrev pub IsQuestion : Question → Type 0
  IsQuestion trust = Unit {0}
  IsQuestion (ask_md5 salt) = length salt ≡ 4
  IsQuestion (ask_sasl names x) = IsExchange names x

auth_type-auth_body :
    (code : ℕ) (bs : Bytes) → code < 2 ^ 32 → auth_type (b'R' ∷ auth_body code bs) ≡ done code
auth_type-auth_body code bs h = rw (of_be-be32 code h) (ground arith)

long_enough : (salt : Bytes) → length salt ≡ 4 → ltb (length (b'R' ∷ auth_body 5 salt)) 9 ≡ false
long_enough salt h = ground arith

whole_salt : (salt : Bytes) → length salt ≡ 4 → take 4 salt ≡ salt
whole_salt salt h = take_all 4 salt (omega (arith, h))

regroup : (xs ys zs rest : Bytes) → (xs ++ (ys ++ zs)) ++ rest ≡ xs ++ (ys ++ (zs ++ rest))
regroup xs ys zs rest = simp append_assoc

continue_if :
    {A : Type 0} (b : Bool) (e : Fault) (k : Unit {0} → Action World A) {v w : World}
    → v ≡ w
    → continue (if b then done tt else failed e) k v ≡ (if b then k tt w else (failed e, w))
continue_if true e k h = ap (k tt) h
continue_if false e k h = ap (λ u. (failed e, u)) h

-- The world after an answer to the upstream, of which `rest` is still to come.
abbrev pub answered : Bytes → Bytes → World → World
answered bs rest w = record w { upstream = with_inbound rest (wrote bs w.upstream) }

module _ (random : ℕ → Exit Bytes) (cfg : PostgresService) where
  auth_loop-asked :
      (code : ℕ) (bs rest : Bytes) (f : ℕ) (w : World)
      → code < 2 ^ 32
      → length (auth_body code bs) + 4 < 2 ^ 32
      → w.upstream.inbound ≡ message_frame b'R' (auth_body code bs) ++ rest
      → auth_loop random cfg (suc f) w
        ≡ answer_auth random cfg f
            (b'R' ∷ auth_body code bs)
            code
            (auth_loop random cfg f)
            (record w { upstream = with_inbound rest w.upstream })
  unfolding auth_loop
  auth_loop-asked code bs rest f w small fits e =
      rw (read_message-frame b'R' (auth_body code bs) rest w.upstream fits e)
        (rw (auth_type-auth_body code bs small) refl)

  -- AuthenticationOK goes to the client, and the rest of the startup is forwarded.
  pub auth_loop-accepted :
      (rest : Bytes) (f : ℕ) (w : World)
      → w.upstream.inbound ≡ message_frame b'R' (be32 0) ++ rest
      → length (message_frame b'R' (be32 0)) ≤ w.client.capacity
      → auth_loop random cfg (suc f) w
        ≡ forward_startup (suc (length rest)) (passed (message_frame b'R' (be32 0)) rest w)
  unfolding answer_auth
  auth_loop-accepted rest f w e room =
      auth_loop-asked 0 [] rest f w (omega arith) (omega arith) e
      ∙ rw (write_message-frame b'R' (be32 0) w.client room) refl

  auth_loop-md5 :
      (salt rest : Bytes) (f : ℕ) (w : World)
      → length salt ≡ 4
      → w.upstream.inbound ≡ question_bytes (ask_md5 salt) ++ rest
      → length (answer_bytes cfg (ask_md5 salt)) ≤ w.upstream.capacity
      → auth_loop random cfg (suc f) w
        ≡ auth_loop random cfg f (answered (answer_bytes cfg (ask_md5 salt)) rest w)
  unfolding answer_auth build_password_message
  auth_loop-md5 salt rest f w four e room =
      auth_loop-asked 5 salt rest f w (omega arith) (omega (arith, four)) e
      ∙ rw (long_enough salt four, whole_salt salt four)
          (rw
            (write_message-frame b'p' (terminated (md5_password cfg.user cfg.password salt))
              (with_inbound rest w.upstream) room)
            refl)

  ask_sasl-Plays :
      (names : List Bytes) (rest : Bytes) (x : Exchanged) (w : World)
      → IsExchange random names x
      → length (exchange_sent cfg.password x) ≤ w.upstream.capacity
      → Plays cfg.password
          (record x { rest = rest })
          (with_inbound
            (message_frame b'R' (auth_body 11 (asked x))
              ++ (message_frame b'R' (auth_body 12 x.server_final) ++ rest))
            w.upstream)
  ask_sasl-Plays names rest x w h room = record {
    choice = h.choice;
    stream = refl;
    first_fits = h.asked_fits;
    final_fits = h.final_fits;
    room = room;
  }

  auth_loop-sasl :
      (names : List Bytes) (rest : Bytes) (x : Exchanged) (f : ℕ) (w : World)
      → IsExchange random names x
      → w.upstream.inbound ≡ question_bytes (ask_sasl names x) ++ rest
      → length (exchange_sent cfg.password x) ≤ w.upstream.capacity
      → auth_loop random cfg (suc f) w ≡ (
          if proven cfg (ask_sasl names x)
          then auth_loop random cfg f (answered (exchange_sent cfg.password x) rest w)
          else (failed signature_mismatch, answered (exchange_sent cfg.password x) rest w))
  unfolding answer_auth
  auth_loop-sasl names rest x f w h e room =
      auth_loop-asked 10 (names_wire names) _ f w (omega arith) h.names_fit (
        e
        ∙ regroup (message_frame b'R' (auth_body 10 (names_wire names)))
            (message_frame b'R' (auth_body 11 (asked x)))
            (message_frame b'R' (auth_body 12 x.server_final)) rest)
      ∙ rw (parse_sasl_mechanisms-names_wire names h.named, h.supported, h.drawn f)
          (rw
            (do_scram_outcome cfg.password (record x { rest = rest }) _
              (ask_sasl-Plays names rest x w h room))
            (continue_if (proven cfg (ask_sasl names x)) signature_mismatch
              (λ _. auth_loop random cfg f)
              (ap (λ (c : Conn). record w { upstream = with_inbound rest c })
                (wrote-wrote (message_frame b'p' (first_body x))
                  (message_frame b'p' (final_body cfg.password x)) w.upstream))))

  -- The questions together: where the server has shown what it has to, the loop goes on behind
  -- the answer, having used one round at most.
  pub auth_loop-question :
      (q : Question) (rest : Bytes) (f : ℕ) (w : World)
      → IsQuestion random q
      → w.upstream.inbound ≡ question_bytes q ++ rest
      → length (answer_bytes cfg q) ≤ w.upstream.capacity
      → (g : ℕ) × (f ≤ g)
        × (auth_loop random cfg (suc f) w ≡ (
            if proven cfg q
            then auth_loop random cfg g (answered (answer_bytes cfg q) rest w)
            else (failed signature_mismatch, answered (answer_bytes cfg q) rest w)))
  auth_loop-question trust rest f w h e room = (
    suc f,
    omega arith,
    ap (λ s. auth_loop random cfg (suc f) (record w { upstream = with_inbound s w.upstream })) e
        ∙ ap
            (λ (c : Conn).
              auth_loop random cfg (suc f) (record w { upstream = with_inbound rest c }))
            (wrote_nil w.upstream),
  )
  auth_loop-question (ask_md5 salt) rest f w h e room =
      (f, omega arith, auth_loop-md5 salt rest f w h e room)
  auth_loop-question (ask_sasl names x) rest f w h e room =
      (f, omega arith, auth_loop-sasl names rest x f w h e room)
