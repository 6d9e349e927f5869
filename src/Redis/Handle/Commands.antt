-- ===== src/Redis/Handle/Commands.antt =====
-- The AUTH commands of a client that `discardClientAuth` takes off its stream whole.
use credential_gateway.Common.{
  ℕ, suc, ◌+◌, ◌^◌, ◌≤◌, ◌<◌, ◌≡◌, ◌≢◌, ◌⊎◌, refl, ap, ◌∙◌, Bytes, true, [], ◌∷◌, ◌++◌, length,
  some, arith, append_assoc, sym, drop-append, All, subst,
}
use credential_gateway.Common.Texts.{codes, equal}
use credential_gateway.Std.Decimal.{decimal}
use credential_gateway.Net.Exit.{done}
use credential_gateway.Net.Conn.{Conn, wrote, with_inbound}
use credential_gateway.Net.Conn.Laws.{write_done}
use credential_gateway.Net.Reader.{line_end, direct_source}
use credential_gateway.Redis.Auth.{
  equal_fold, ok_reply, consume_array_auth, consume_inline_auth, discard_client_auth,
}
use credential_gateway.Redis.Handle.Whole.{take_password, password_taken}

-- An array of a name and a password; a name and the rest of its line.
pub data ClientAuth : Type 0 where
  array : Bytes → Bytes → ClientAuth
  inline : Bytes → Bytes → ClientAuth

abbrev pub client_command : ClientAuth → Bytes
client_command (array name pw) =
    codes "*2\r\n$4\r\n"
    ++ (name ++ (codes "\r\n$" ++ (decimal (length pw) ++ (codes "\r\n" ++ (pw ++ codes "\r\n")))))
client_command (inline name line) = name ++ (line ++ codes "\n")

-- `AUTH`, in any case.
abbrev pub IsName : Bytes → Type 0
IsName name = equal_fold name (codes "AUTH") ≡ true

-- Nothing, or something behind a space or a carriage return.
abbrev pub IsSeparate : Bytes → Type 0
IsSeparate [] = Unit {0}
IsSeparate (b ∷ bs) = (b ≡ b' ') ⊎ (b ≡ b'\r')

-- The length of a password is below 2^63, and there is memory for it.
abbrev pub IsClientAuth : ℕ → ClientAuth → Type 0
IsClientAuth max_alloc (array name pw) =
    IsName name × (length pw < 2 ^ 63) × (length pw + 2 ≤ max_alloc)
IsClientAuth max_alloc (inline name line) =
    IsName name × IsSeparate line × All (λ b. b ≢ b'\n') line

line_end-line :
    (line rest : Bytes)
    → All (λ b. b ≢ b'\n') line
    → line_end (line ++ (b'\n' ∷ rest)) ≡ some (suc (length line))
unfolding line_end
line_end-line [] rest h = refl
line_end-line (b ∷ line) rest h = ground (arith, line_end-line line rest h.1)

four_letters :
    (name : Bytes)
    → IsName name
    → (a : ℕ) × (b : ℕ) × (d : ℕ) × (e : ℕ) × (name ≡ a ∷ b ∷ d ∷ e ∷ [])
unfolding equal_fold equal
four_letters (a ∷ b ∷ d ∷ e ∷ []) h = (a, b, d, e, refl)
four_letters [] h = cc
four_letters (a ∷ []) h = ground arith
four_letters (a ∷ b ∷ []) h = ground arith
four_letters (a ∷ b ∷ d ∷ []) h = ground arith
four_letters (a ∷ b ∷ d ∷ e ∷ f ∷ name) h = ground arith

name_letters :
    (a b c d : ℕ)
    → IsName (a ∷ b ∷ c ∷ d ∷ [])
    → (a ≢ b'\n') × (b ≢ b'\n') × (c ≢ b'\n') × (d ≢ b'\n')
unfolding equal_fold equal
name_letters a b c d h = ground arith

module _ (max_alloc : ℕ) (c : Conn) where
  array_found :
      (a b d e : ℕ) (s : Bytes)
      → IsName (a ∷ b ∷ d ∷ e ∷ [])
      → let stream = codes "*2\r\n$4\r\n" ++ (a ∷ b ∷ d ∷ e ∷ (codes "\r\n" ++ s)) in
        discard_client_auth max_alloc direct_source (with_inbound stream c)
        ≡ consume_array_auth max_alloc direct_source (with_inbound stream c)
  unfolding discard_client_auth direct_source equal
  array_found a b d e s h = ground arith

  array_taken :
      (a b d e : ℕ) (s : Bytes)
      → IsName (a ∷ b ∷ d ∷ e ∷ [])
      → let stream = codes "*2\r\n$4\r\n" ++ (a ∷ b ∷ d ∷ e ∷ (codes "\r\n" ++ s)) in
        consume_array_auth max_alloc direct_source (with_inbound stream c)
        ≡ take_password max_alloc c (with_inbound s c)
  unfolding consume_array_auth direct_source line_end
  array_taken a b d e s h = let (p, q, r, t) = name_letters a b d e h in ground arith

  inline_found :
      (a b d e : ℕ) (line rest : Bytes)
      → IsName (a ∷ b ∷ d ∷ e ∷ [])
      → IsSeparate line
      → let stream = a ∷ b ∷ d ∷ e ∷ (line ++ (b'\n' ∷ rest)) in
        discard_client_auth max_alloc direct_source (with_inbound stream c)
        ≡ consume_inline_auth max_alloc direct_source (with_inbound stream c)
  unfolding discard_client_auth direct_source equal equal_fold
  inline_found a b d e [] rest h s = ground arith
  inline_found a b d e (x ∷ line) rest h s = ground arith

  inline_taken :
      (name line rest : Bytes)
      → All (λ b. b ≢ b'\n') (name ++ line)
      → length ok_reply ≤ c.capacity
      → consume_inline_auth max_alloc direct_source
          (with_inbound ((name ++ line) ++ (b'\n' ∷ rest)) c)
        ≡ (done tt, wrote ok_reply (with_inbound rest c))
  unfolding consume_inline_auth direct_source
  inline_taken name line rest h reply =
      let text = name ++ line in
      rw
        (
          line_end-line text rest h,
          drop-append text (b'\n' ∷ rest) (suc (length text)) 1 (omega arith),
        )
        (write_done ok_reply (with_inbound rest c) reply)

  array_auth_taken :
      (a b d e : ℕ) (pw rest : Bytes)
      → IsClientAuth max_alloc (array (a ∷ b ∷ d ∷ e ∷ []) pw)
      → length ok_reply ≤ c.capacity
      → discard_client_auth max_alloc direct_source
          (with_inbound (client_command (array (a ∷ b ∷ d ∷ e ∷ []) pw) ++ rest) c)
        ≡ (done tt, wrote ok_reply (with_inbound rest c))
  array_auth_taken a b d e pw rest (name, small, room) reply =
      let mark = codes "\r\n" in
      let tail = b'$' ∷ (decimal (length pw) ++ (mark ++ ((pw ++ mark) ++ rest))) in
      ap
        (λ s.
          discard_client_auth max_alloc direct_source
            (with_inbound (codes "*2\r\n$4\r\n" ++ (a ∷ b ∷ d ∷ e ∷ (codes "\r\n$" ++ s))) c))
        (append_assoc (decimal (length pw)) (mark ++ (pw ++ mark)) rest)
      ∙ array_found a b d e tail name
      ∙ array_taken a b d e tail name
      ∙ password_taken max_alloc c pw rest small room reply

  inline_auth_taken :
      (a b d e : ℕ) (line rest : Bytes)
      → IsClientAuth max_alloc (inline (a ∷ b ∷ d ∷ e ∷ []) line)
      → length ok_reply ≤ c.capacity
      → discard_client_auth max_alloc direct_source
          (with_inbound (client_command (inline (a ∷ b ∷ d ∷ e ∷ []) line) ++ rest) c)
        ≡ (done tt, wrote ok_reply (with_inbound rest c))
  inline_auth_taken a b d e line rest (name, separate, text) reply =
      let (p, q, r, t) = name_letters a b d e name in
      ap (λ s. discard_client_auth max_alloc direct_source (with_inbound (a ∷ b ∷ d ∷ e ∷ s) c))
        (append_assoc line (codes "\n") rest)
      ∙ inline_found a b d e line rest name separate
      ∙ inline_taken (a ∷ b ∷ d ∷ e ∷ []) line rest (p, (q, (r, (t, text)))) reply

  -- What is shown of a command.
  abbrev Taken : Bytes → ClientAuth → Type 0
  Taken rest auth =
      IsClientAuth max_alloc auth
      → discard_client_auth max_alloc direct_source (with_inbound (client_command auth ++ rest) c)
        ≡ (done tt, wrote ok_reply (with_inbound rest c))

  each_taken :
      (auth : ClientAuth) (rest : Bytes)
      → IsClientAuth max_alloc auth
      → length ok_reply ≤ c.capacity
      → discard_client_auth max_alloc direct_source (with_inbound (client_command auth ++ rest) c)
        ≡ (done tt, wrote ok_reply (with_inbound rest c))
  each_taken (array name pw) rest h reply =
      let (a, b, d, e, q) = four_letters name (h.0) in
      subst (λ n. Taken rest (array n pw)) (sym q) (λ k. array_auth_taken a b d e pw rest k reply) h
  each_taken (inline name line) rest h reply =
      let (a, b, d, e, q) = four_letters name (h.0) in
      subst (λ n. Taken rest (inline n line)) (sym q)
        (λ k. inline_auth_taken a b d e line rest k reply) h

  -- Either form, with nothing of the stream behind it.
  pub client_auth_taken :
      (auth : ClientAuth) (rest : Bytes)
      → IsClientAuth max_alloc auth
      → c.inbound ≡ client_command auth ++ rest
      → length ok_reply ≤ c.capacity
      → discard_client_auth max_alloc direct_source c
        ≡ (done tt, wrote ok_reply (with_inbound rest c))
  client_auth_taken auth rest h e reply =
      ap (λ s. discard_client_auth max_alloc direct_source (with_inbound s c)) e
      ∙ each_taken auth rest h reply
