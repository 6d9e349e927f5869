-- ===== src/Mysql/Handshake/Nonce.antt =====
-- What `mysqlParseNonce` reads, and where it panics.
use credential_gateway.Common.{
  ℕ, ◌+◌, ◌-◌, ◌*◌, ◌≤◌, ◌<◌, ◌≡◌, ◌≢◌, refl, ap, ◌∙◌, bit_and, bit_or, Bytes, [], ◌∷◌, ◌++◌,
  length, get_elem?, take, drop, max, some, arith, length-append, append_assoc, take-append_length,
  drop-append_length, sym, get_elem?-append, drop-append, get_elem?-lt, get_elem?-ge,
}
use credential_gateway.Common.Texts.{HasNoNul, nul_index-append}
use credential_gateway.Net.Exit.{done, failed, panicked, handshake_too_short}
use credential_gateway.Mysql.Handshake.{version_end, nonce_at, parse_nonce}

-- The fields of a HandshakeV10 packet.
pub record Greeting : Type 0 where
  pub version : Bytes
  pub connection : Bytes
  pub part_one : Bytes
  pub caps_low : ℕ × ℕ
  pub charset : ℕ
  pub status : ℕ × ℕ
  pub caps_high : ℕ × ℕ
  pub auth_length : ℕ
  pub reserved : Bytes
  pub part_two : Bytes
  pub rest : Bytes

abbrev pub fixed_fields : Greeting → Bytes
fixed_fields g =
    0
    ∷ (g.caps_low).0
    ∷ (g.caps_low).1
    ∷ g.charset
    ∷ (g.status).0
    ∷ (g.status).1
    ∷ (g.caps_high).0
    ∷ (g.caps_high).1
    ∷ g.auth_length
    ∷ []

abbrev pub body : Greeting → Bytes
body g = (g.connection ++ g.part_one) ++ (fixed_fields g ++ (g.reserved ++ (g.part_two ++ g.rest)))

-- The packet's bytes.
abbrev pub marshal : Greeting → Bytes
marshal g = (0x0a ∷ (g.version ++ (0 ∷ []))) ++ body g

pub record IsGreeting (g : Greeting) : Type 0 where
  pub version_text : HasNoNul g.version
  pub connection_size : length g.connection ≡ 4
  pub part_one_size : length g.part_one ≡ 8
  pub reserved_size : length g.reserved ≡ 10
  pub part_two_size : length g.part_two ≡ 12
  pub plugin_auth : bit_and (bit_or (g.caps_high).0 ((g.caps_high).1 * 256)) 0x0008 ≢ 0
  pub room : max 13 (g.auth_length - 8) ≤ 12 + length g.rest

-- Only the bytes from the position on matter.
nonce_at-append : (xs ys : Bytes) → nonce_at (xs ++ ys) (length xs) ≡ nonce_at ys 0
unfolding nonce_at
nonce_at-append xs ys = ground (
  arith,
  length-append xs ys,
  get_elem?-append xs ys (length xs + 18) 18 refl,
  get_elem?-append xs ys (length xs + 19) 19 refl,
  get_elem?-append xs ys (length xs + 20) 20 refl,
  drop-append xs ys (length xs + 4) 4 refl,
  drop-append xs ys (length xs + 31) 31 refl,
)

abbrev pub front : Bytes → Bytes
front version = 0x0a ∷ (version ++ (0 ∷ []))

pub version_end-front :
    (version ys : Bytes)
    → HasNoNul version
    → version_end (front version ++ ys) ≡ length (front version)
unfolding version_end
version_end-front version ys h = ground (
  arith,
  append_assoc version (0 ∷ []) ys,
  nul_index-append version ys h,
  length-append version (0 ∷ []),
)

parse_nonce-front :
    (version ys : Bytes) → HasNoNul version → parse_nonce (front version ++ ys) ≡ nonce_at ys 0
unfolding parse_nonce
parse_nonce-front version ys h =
    ap (nonce_at (front version ++ ys)) (version_end-front version ys h)
    ∙ nonce_at-append (front version) ys

nonce_at_lem :
    (payload : Bytes) (low high n : ℕ)
    → get_elem? payload 18 ≡ some low
    → get_elem? payload 19 ≡ some high
    → get_elem? payload 20 ≡ some n
    → bit_and (bit_or low (high * 256)) 0x0008 ≢ 0
    → 31 + max 13 (n - 8) ≤ length payload
    → nonce_at payload 0 ≡ done (take 8 (drop 4 payload) ++ take 12 (drop 31 payload))
unfolding nonce_at
nonce_at_lem payload low high n hl hh hn hb hr = ground arith

module _ (g : Greeting) (h : IsGreeting g) where
  tail_fields : Bytes
  tail_fields = fixed_fields g ++ (g.reserved ++ (g.part_two ++ g.rest))

  body_elem : (i k : ℕ) → i ≡ 12 + k → get_elem? (body g) i ≡ get_elem? tail_fields k
  unfolding tail_fields
  body_elem i k e =
      get_elem?-append (g.connection ++ g.part_one) _ i k
        (omega (arith, length-append g.connection g.part_one, h.connection_size, h.part_one_size))

  body_part_one : take 8 (drop 4 (body g)) ≡ g.part_one
  body_part_one =
      let later = fixed_fields g ++ (g.reserved ++ (g.part_two ++ g.rest)) in
      rw (append_assoc g.connection g.part_one later) (
        rw (drop-append_length 4 g.connection (g.part_one ++ later) (sym h.connection_size))
          (take-append_length 8 g.part_one later (sym h.part_one_size)))

  body_part_two : take 12 (drop 31 (body g)) ≡ g.part_two
  body_part_two =
      rw
        (drop-append (g.connection ++ g.part_one) _ 31 19 (
          omega (arith, length-append g.connection g.part_one, h.connection_size, h.part_one_size)))
        (rw (drop-append_length 10 g.reserved (g.part_two ++ g.rest) (sym h.reserved_size))
          (take-append_length 12 g.part_two g.rest (sym h.part_two_size)))

  length-body : 31 + max 13 (g.auth_length - 8) ≤ length (body g)
  length-body = omega (
    arith,
    h.room,
    h.connection_size,
    h.part_one_size,
    h.reserved_size,
    h.part_two_size,
    length-append g.connection g.part_one,
    length-append (g.connection ++ g.part_one)
        (fixed_fields g ++ (g.reserved ++ (g.part_two ++ g.rest))),
    length-append g.reserved (g.part_two ++ g.rest),
    length-append g.part_two g.rest,
  )

  nonce_at-body : nonce_at (body g) 0 ≡ done (g.part_one ++ g.part_two)
  unfolding tail_fields
  nonce_at-body =
      rw
        (nonce_at_lem (body g) (g.caps_high).0 (g.caps_high).1 g.auth_length (body_elem 18 6 refl)
          (body_elem 19 7 refl) (body_elem 20 8 refl) h.plugin_auth length-body)
        (cc (body_part_one, body_part_two))

  -- From every well-formed HandshakeV10 that carries CLIENT_PLUGIN_AUTH, `mysqlParseNonce` reads
  -- the two parts of the nonce, one behind the other.
  pub parse_nonce-marshal : parse_nonce (marshal g) ≡ done (g.part_one ++ g.part_two)
  parse_nonce-marshal = parse_nonce-front g.version (body g) h.version_text ∙ nonce_at-body

module _ (payload : Bytes) (pos : ℕ) where
  nonce_at_short : length payload < pos + 13 → nonce_at payload pos ≡ failed handshake_too_short
  unfolding nonce_at
  nonce_at_short h = ground arith

  nonce_at_panics :
      pos + 13 ≤ length payload → length payload < pos + 20 → nonce_at payload pos ≡ panicked
  unfolding nonce_at
  nonce_at_panics lo hi =
      ground (arith, get_elem?-ge payload (pos + 18), get_elem?-ge payload (pos + 19))

  nonce_at_safe : pos + 20 < length payload → nonce_at payload pos ≢ panicked
  unfolding nonce_at
  nonce_at_safe h e = ground (
    arith,
    get_elem?-lt payload (pos + 18) 0,
    get_elem?-lt payload (pos + 19) 0,
    get_elem?-lt payload (pos + 20) 0,
  )

-- Behind a first byte 0x0a, with `pos` the position behind the server version: a packet that
-- ends 13 to 19 bytes behind `pos` passes the length check and panics; one that is shorter is
-- refused, and one that is longer than 20 does not panic.
pub parse_nonce_guard :
    (rest : Bytes)
    → let payload = 0x0a ∷ rest in
      let pos = version_end payload in
      (length payload < pos + 13 → parse_nonce payload ≡ failed handshake_too_short)
      × (pos + 13 ≤ length payload → length payload < pos + 20 → parse_nonce payload ≡ panicked)
      × (pos + 20 < length payload → parse_nonce payload ≢ panicked)
unfolding parse_nonce
parse_nonce_guard rest =
    let payload : Bytes = 0x0a ∷ rest in
    let pos = version_end payload in
    (nonce_at_short payload pos, nonce_at_panics payload pos, nonce_at_safe payload pos)
