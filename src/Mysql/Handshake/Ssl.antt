-- ===== src/Mysql/Handshake/Ssl.antt =====
-- What `mysqlClearSSL` changes.
use mathlib.Core.Option
use credential_gateway.Common.{
  ℕ, ◌+◌, ◌-◌, ◌*◌, ◌/◌, ◌%◌, ◌<◌, ◌≡◌, true, refl, sym, ap, ◌∙◌, [], ◌∷◌, ◌++◌, append_assoc,
  length-append, Bytes, IsByte, All, length, get_or, get_elem?, set, ltb, ◌==◌, arith,
  if◌then◌else◌, length-set, get_elem?-set_self, get_elem?-set_ne, set_same, get_or-IsByte,
  get_elem?-lt, get_elem?-ge,
}
use credential_gateway.Common.Bits.{bit_or_two, clear_bit_low, clear_bit_high}
use credential_gateway.Mysql.Handshake.Nonce.{Greeting, marshal, body, front, version_end-front}
use credential_gateway.Common.Texts.{HasNoNul}
use credential_gateway.Mysql.Handshake.{version_end, flags_position, cleared_flags, clear_ssl}

-- A byte without its bit 3, which is CLIENT_SSL in the high byte of `capability_flags_1`.
abbrev pub without_bit_three : ℕ → ℕ
without_bit_three b = b - b / 8 % 2 * 8

module _ (payload : Bytes) (h : All IsByte payload) where
  cleared_flags_parts :
      (pos : ℕ)
      → (cleared_flags payload pos % 256 ≡ get_or payload pos 0)
        × (cleared_flags payload pos / 256 % 256 ≡ without_bit_three (get_or payload (pos + 1) 0))
  unfolding cleared_flags
  cleared_flags_parts pos =
      let lo = get_or payload pos 0 in
      let hi = get_or payload (pos + 1) 0 in
      let hl : lo < 256 = get_or-IsByte payload pos h in
      let hh : hi < 256 = get_or-IsByte payload (pos + 1) h in
      rw (bit_or_two lo hi hl)
        (clear_bit_low lo hi hl hh, rw (clear_bit_high lo hi hl hh) (omega arith))

  -- Only the high byte is written anew.
  clear_ssl-set : clear_ssl payload ≡ (
      if ltb (flags_position payload + 1) (length payload)
      then set payload
          (flags_position payload + 1)
          (without_bit_three (get_or payload (flags_position payload + 1) 0))
      else payload)
  unfolding clear_ssl
  clear_ssl-set =
      let pos = flags_position payload in
      let (low, high) = cleared_flags_parts pos in rw (low, high) (rw (set_same payload pos 0))

  -- The length of a packet is kept, and every byte but one.
  clear_ssl_exact :
      (length (clear_ssl payload) ≡ length payload)
      × ((i : ℕ)
          → get_elem? (clear_ssl payload) i ≡ (
              if i == flags_position payload + 1
              then Option.map without_bit_three (get_elem? payload i)
              else get_elem? payload i))
  clear_ssl_exact =
      let pos = flags_position payload + 1 in
      let v = without_bit_three (get_or payload pos 0) in
      (
        rw clear_ssl-set (ground (arith, length-set payload pos v)),
        λ i. rw clear_ssl-set (
            ground (
              arith,
              get_elem?-set_self payload pos v,
              get_elem?-set_ne payload pos i v,
              get_elem?-lt payload pos 0,
              get_elem?-ge payload pos,
            )),
      )

-- The bytes of a greeting before the high byte of its lower capabilities.
abbrev front_fields : Greeting → Bytes
front_fields g = front g.version ++ ((g.connection ++ g.part_one) ++ (0 ∷ (g.caps_low).0 ∷ []))

abbrev back_fields : Greeting → Bytes
back_fields g =
    g.charset
    ∷ (g.status).0
    ∷ (g.status).1
    ∷ (g.caps_high).0
    ∷ (g.caps_high).1
    ∷ g.auth_length
    ∷ (g.reserved ++ (g.part_two ++ g.rest))

marshal_split : (g : Greeting) → marshal g ≡ front_fields g ++ ((g.caps_low).1 ∷ back_fields g)
marshal_split g =
    ap (λ s. front g.version ++ s)
      (sym (append_assoc (g.connection ++ g.part_one) (0 ∷ (g.caps_low).0 ∷ []) _))
    ∙ sym (append_assoc (front g.version) _ _)

set_middle : (xs ys : Bytes) (b v : ℕ) → set (xs ++ (b ∷ ys)) (length xs) v ≡ xs ++ (v ∷ ys)
set_middle [] ys b v = refl
set_middle (x ∷ xs) ys b v = ap (λ s. x ∷ s) (set_middle xs ys b v)

get_middle : (xs ys : Bytes) (b : ℕ) → get_or (xs ++ (b ∷ ys)) (length xs) 0 ≡ b
get_middle [] ys b = refl
get_middle (x ∷ xs) ys b = get_middle xs ys b

in_middle : (xs ys : Bytes) (b : ℕ) → ltb (length xs) (length (xs ++ (b ∷ ys))) ≡ true
in_middle xs ys b = ground (arith, length-append xs (b ∷ ys))

-- The byte behind `xs` is written anew.
written_middle :
    (xs ys : Bytes) (b n : ℕ) (payload : Bytes)
    → payload ≡ xs ++ (b ∷ ys)
    → n ≡ length xs
    → (if ltb n (length payload)
        then set payload n (without_bit_three (get_or payload n 0))
        else payload)
      ≡ xs ++ (without_bit_three b ∷ ys)
written_middle xs ys b n payload e k =
    rw (e, k)
      (rw (in_middle xs ys b, get_middle xs ys b) (set_middle xs ys b (without_bit_three b)))

flags_position-marshal :
    (g : Greeting)
    → HasNoNul g.version
    → length g.connection ≡ 4
    → length g.part_one ≡ 8
    → flags_position (marshal g) + 1 ≡ length (front_fields g)
unfolding flags_position
flags_position-marshal g n c p =
    let fields = g.connection ++ g.part_one in
    let end : version_end (marshal g) ≡ length (front g.version) =
      version_end-front g.version (body g) n in
    omega (
      arith,
      end,
      c,
      p,
      length-append g.connection g.part_one,
      length-append fields (0 ∷ (g.caps_low).0 ∷ []),
      length-append (front g.version) (fields ++ (0 ∷ (g.caps_low).0 ∷ [])),
    )

-- In every HandshakeV10, whatever its other fields, `mysqlClearSSL` clears bit 3 of the high byte
-- of `capability_flags_1`, which is CLIENT_SSL, and changes nothing else.
pub clear_ssl-marshal :
    (g : Greeting)
    → All IsByte (marshal g)
    → HasNoNul g.version
    → length g.connection ≡ 4
    → length g.part_one ≡ 8
    → clear_ssl (marshal g)
      ≡ marshal (record g { caps_low = ((g.caps_low).0, without_bit_three ((g.caps_low).1)) })
clear_ssl-marshal g h n c p =
    clear_ssl-set (marshal g) h
    ∙ written_middle (front_fields g) (back_fields g) ((g.caps_low).1) _ (marshal g)
        (marshal_split g) (flags_position-marshal g n c p)
    ∙ sym (
        marshal_split
          (record g { caps_low = ((g.caps_low).0, without_bit_three ((g.caps_low).1)) }))
