-- ===== src/Oracle/Handle/Session.antt =====
-- What the gateway sends to an Oracle listener, packet by packet.
use credential_gateway.Common.{ℕ, zero, suc, ◌≡◌, Bytes, ◌++◌}
use credential_gateway.Config.Types.{OracleService}
use credential_gateway.Oracle.Tns.Laws.{frame}
use credential_gateway.Oracle.Tns.Roles.{IsTns, IsData}
use credential_gateway.Oracle.Ttc.{build_connect, build_o3log, build_o3auth, compute_auth}

-- The client's second packet, behind its CONNECT, has that body.
pub record SecondPacket (stream ns : Bytes) : Type 0 where
  pub connect : ℕ × Bytes
  pub first : Bytes
  pub second : Bytes
  pub rest : Bytes
  pub opened : IsTns connect first
  pub data_ : IsData ns second
  pub split : stream ≡ (first ++ second) ++ rest

module _ (to_upper : Bytes → Bytes) (cfg : OracleService) where
  -- The CONNECT packet, sent once and again for each RESEND.
  abbrev pub connects : ℕ → Bytes
  connects zero = frame 1 (build_connect to_upper cfg.service)
  connects (suc n) = connects n ++ frame 1 (build_connect to_upper cfg.service)

  -- Behind it the body of the client's, then the configured user, then the token.
  abbrev pub with_ns : ℕ → Bytes → Bytes
  with_ns n ns = connects n ++ frame 6 ns

  abbrev pub with_user : ℕ → Bytes → Bytes
  with_user n ns = with_ns n ns ++ frame 6 (build_o3log cfg.user)

  abbrev pub with_token : ℕ → Bytes → Bytes → Bytes
  with_token n ns salt =
      with_user n ns ++ frame 6 (build_o3auth cfg.user (compute_auth cfg.password salt))

  -- How far a run with that client's stream may get.
  pub data Stage (stream : Bytes) : Bytes → Type 0 where
    connecting : {bs : Bytes} (n : ℕ) → bs ≡ connects n → Stage stream bs
    negotiated :
        {bs : Bytes} (n : ℕ) (ns : Bytes)
        → SecondPacket stream ns
        → bs ≡ with_ns n ns
        → Stage stream bs
    named :
        {bs : Bytes} (n : ℕ) (ns : Bytes)
        → SecondPacket stream ns
        → bs ≡ with_user n ns
        → Stage stream bs
    proved :
        {bs : Bytes} (n : ℕ) (ns salt : Bytes)
        → SecondPacket stream ns
        → bs ≡ with_token n ns salt
        → Stage stream bs

  -- When the pipe begins, four packets were taken of the client, and of these only the body of
  -- the second has gone into what was sent.
  pub record Authorised (consumed sent : Bytes) : Type 0 where
    pub connect : ℕ × Bytes
    pub ns : Bytes
    pub o3log : Bytes
    pub o3auth : ℕ × Bytes
    pub first : Bytes
    pub second : Bytes
    pub third : Bytes
    pub fourth : Bytes
    pub opened : IsTns connect first
    pub data_ : IsData ns second
    pub login : IsData o3log third
    pub proof : IsTns o3auth fourth
    pub taken : consumed ≡ ((first ++ second) ++ third) ++ fourth
    pub resends : ℕ
    pub salt : Bytes
    pub bytes : sent ≡ with_token resends ns salt
