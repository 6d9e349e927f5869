-- ===== src/Mysql/Handle/Isolation.antt =====
-- What of the client's bytes can reach the upstream.
use credential_gateway.Common.{ℕ, ◌≡◌, refl, sym, Bytes, true, false, [], take, append-nil}
use credential_gateway.Common.Texts.{is_empty}
use credential_gateway.Common.Words.{of_le}
use credential_gateway.Net.Exit.Ensures.{
  Holds, Ensures, Ensures-bind, Ensures-lift, Ensures-if, Ensures-some, Ensures-drop,
}
use credential_gateway.Net.World.{World}
use credential_gateway.Net.Inject.{
  Injected, Stopped, Relayed, May, stop, inject-dial, inject-on_upstream, inject-on_client,
  inject-take,
}
use credential_gateway.Net.Inject.Sends.{inject-send, inject-pipe}
use credential_gateway.Mysql.Packet.Laws.{frame}
use credential_gateway.Mysql.Packet.Roles.{
  IsPacket, read_packet-Takes, read_packet-Reads, write_packet-Writes,
}
use credential_gateway.Mysql.Response.{build_response, parse_database}
use credential_gateway.Mysql.Handle.{
  Service, starts_with, refuse_switch, relay_result, chosen_database, handle,
}

-- The login packet that carries the configured credentials.
abbrev pub login : Service → Bytes → Bytes → Bytes
login cfg nonce database = frame 1 (build_response cfg.user cfg.password nonce database)

-- The database is the configured one wherever one is configured.
abbrev pub IsConfigured : Service → Bytes → Type 0
IsConfigured cfg database = is_empty cfg.database ≡ false → database ≡ cfg.database

-- A run may send one login packet, with some nonce, to the configured database if there is one.
pub record MayLogin (cfg : Service) (bs : Bytes) : Type 0 where
  pub nonce : Bytes
  pub database : Bytes
  pub configured : IsConfigured cfg database
  pub bytes : bs ≡ login cfg nonce database

-- When the pipe begins, one packet was taken from the client, and one login packet was sent. Of
-- the client's packet only the database may have gone into it.
pub record LoggedIn (cfg : Service) (taken bs : Bytes) : Type 0 where
  pub packet : ℕ × Bytes
  pub is_packet : IsPacket packet taken
  pub nonce : Bytes
  pub database : Bytes
  pub configured : IsConfigured cfg database
  pub asked :
      is_empty cfg.database ≡ true
      → database ≡ parse_database (packet.1) (of_le (take 4 (packet.1)))
  pub bytes : bs ≡ login cfg nonce database

chosen_database-IsConfigured :
    (cfg : Service) (resp : Bytes) (caps : ℕ) → IsConfigured cfg (chosen_database cfg resp caps)
chosen_database-IsConfigured cfg resp caps e = rw e refl

chosen_database_asked :
    (cfg : Service) (resp : Bytes) (caps : ℕ)
    → is_empty cfg.database ≡ true
    → chosen_database cfg resp caps ≡ parse_database resp caps
chosen_database_asked cfg resp caps e = rw e refl

module _ (quote : Bytes → Bytes) (cfg : Service) (before stream : Bytes) where
  abbrev Early : World → Type 0
  Early = Stopped before stream (MayLogin cfg) (LoggedIn cfg)

  abbrev Reached : Bytes → Bytes → World → Type 0
  Reached = Injected before stream (MayLogin cfg) (LoggedIn cfg)

  abbrev Piped : World → Type 0
  Piped = Relayed before stream (MayLogin cfg) (LoggedIn cfg)

  none_yet : May before stream (MayLogin cfg) (LoggedIn cfg) []
  none_yet = record {
    rest = login cfg [] cfg.database;
    permitted = record {
      nonce = [];
      database = cfg.database;
      configured = λ e. refl;
      bytes = refl;
    };
  }

  refuse_switch-Ensures :
      (client_seq caps : ℕ) (result taken sent : Bytes)
      → May before stream (MayLogin cfg) (LoggedIn cfg) sent
      → Ensures (Reached taken sent) (refuse_switch quote client_seq caps result) (λ _. Piped) Early
  unfolding refuse_switch
  refuse_switch-Ensures client_seq caps result taken sent may =
      Ensures-drop (λ _. Reached taken sent) _
        (inject-on_client _ _ _ _ taken sent _ _ (write_packet-Writes _ _) may)
        (λ _ v. stop _ _ _ _ taken sent may)

  relay_result-Ensures :
      (client_seq caps seq : ℕ) (result taken sent : Bytes)
      → May before stream (MayLogin cfg) (LoggedIn cfg) sent
      → LoggedIn cfg taken sent
      → Ensures
          (Reached taken sent)
          (relay_result quote client_seq caps seq result)
          (λ _. Piped)
          Early
  unfolding relay_result
  relay_result-Ensures client_seq caps seq result taken sent may logged =
      Ensures-if (starts_with 0xfe result) _ _
        (λ _. refuse_switch-Ensures client_seq caps result taken sent may)
        (λ _.
          Ensures-bind (λ _. Reached taken sent)
            (inject-on_client _ _ _ _ taken sent _ _ (write_packet-Writes seq result) may)
            (λ _.
              Ensures-bind (λ _. Reached taken sent)
                (Ensures-lift _ (λ w. stop _ _ _ _ taken sent may))
                (λ _. inject-pipe _ _ _ _ taken sent logged)))

  handle-Ensures : Ensures (Reached [] []) (handle quote cfg) (λ _. Piped) Early
  unfolding handle
  handle-Ensures =
      Ensures-bind (λ _. Reached [] []) (inject-dial _ _ _ _ [] [] none_yet)
        λ _.
          Ensures-bind (λ _. Reached [] [])
            (inject-on_upstream _ _ _ _ [] [] _ read_packet-Reads none_yet)
            λ p.
              Ensures-bind (λ _. Reached [] []) (Ensures-lift _ (λ w. stop _ _ _ _ [] [] none_yet))
                λ nonce.
                  Ensures-bind (λ _. Reached [] [])
                    (inject-on_client _ _ _ _ [] [] _ _ (write_packet-Writes _ _) none_yet)
                    λ _.
                      Ensures-bind (λ q v. (x : Bytes) × IsPacket q x × Reached x [] v)
                        (inject-take _ _ _ _ [] [] IsPacket _ read_packet-Takes none_yet)
                        λ q.
                          Ensures-some (λ x. Reached x [])
                            λ taken is_packet.
                              let caps = of_le (take 4 (q.1)) in
                              let sent = login cfg nonce (chosen_database cfg (q.1) caps) in
                              let may : May before stream (MayLogin cfg) (LoggedIn cfg) sent =
                                record {
                                  rest = [];
                                  permitted = record {
                                    nonce = nonce;
                                    database = _;
                                    configured = chosen_database-IsConfigured cfg (q.1) caps;
                                    bytes = append-nil sent;
                                  };
                                } in
                              Ensures-bind (λ _. Reached taken [])
                                (Ensures-lift _ (λ w. stop _ _ _ _ taken [] none_yet))
                                λ _.
                                  Ensures-bind (λ _. Reached taken sent)
                                    (inject-send _ _ _ _ taken [] _ _ (write_packet-Writes 1 _) may)
                                    λ _.
                                      Ensures-bind (λ _. Reached taken sent)
                                        (inject-on_upstream _ _ _ _ taken sent _ read_packet-Reads
                                          may)
                                        λ r.
                                          relay_result-Ensures (q.0) caps (r.0) (r.1) taken sent may
                                            (record {
                                              packet = q;
                                              is_packet = is_packet;
                                              nonce = nonce;
                                              database = _;
                                              configured =
                                                  chosen_database-IsConfigured cfg (q.1) caps;
                                              asked = chosen_database_asked cfg (q.1) caps;
                                              bytes = refl;
                                            })

-- What `handle` may have sent upstream, by how it ended. A run that ends before the pipe has sent
-- a prefix of one login packet built from the configured user and password, and from the
-- configured database unless that is empty. A run that reaches the pipe has taken exactly one
-- packet from the client, has sent one whole login packet, to the configured database or, where
-- that is empty, the one that the client's packet asks for, and behind it the bytes that the
-- client sent behind its packet, in order and unchanged.
pub handle-Isolates :
    (quote : Bytes → Bytes) (cfg : Service) (w : World)
    → Holds
        (λ _. Relayed w.upstream.sent w.client.inbound (MayLogin cfg) (LoggedIn cfg))
        (Stopped w.upstream.sent w.client.inbound (MayLogin cfg) (LoggedIn cfg))
        (handle quote cfg w)
handle-Isolates quote cfg w =
    (handle-Ensures quote cfg w.upstream.sent w.client.inbound).at w
      (record { appended = sym (append-nil w.upstream.sent); split = refl })
