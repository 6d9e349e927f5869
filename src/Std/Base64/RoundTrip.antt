-- ===== src/Std/Base64/RoundTrip.antt =====
-- Decoding reads back what encoding wrote.
use credential_gateway.Common.{
  ℕ, ◌+◌, ◌*◌, ◌/◌, ◌%◌, ◌<◌, ◌≡◌, ◌≢◌, refl, Bytes, IsByte, All, Bool, true, false, not, ◌&&◌, [],
  ◌∷◌, Option, none, some, ◌==◌, arith,
}
use credential_gateway.Common.Bits.{passes_below, passes_below_sound}
use credential_gateway.Std.Base64.{
  symbol, value, encode, is_line_end, without_line_ends, decode_groups, decode,
}

abbrev reads : ℕ → Option ℕ → Bool
reads n none = false
reads n (some m) = m == n

-- Whether the character of `n` stands for `n`, is no line end and no padding.
abbrev is_good : ℕ → Bool
is_good n = reads n (value (symbol n)) && (not (is_line_end (symbol n)) && not (symbol n == b'='))

good_table : passes_below is_good 64 ≡ true
unfolding passes_below value symbol
good_table = refl

good : (n : ℕ) → n < 64 → is_good n ≡ true
good n h = passes_below_sound is_good 64 n h good_table

pub value-symbol : (n : ℕ) → n < 64 → value (symbol n) ≡ some n
value-symbol n h = ground (arith, good n h)

pub symbol_plain :
    (n : ℕ) → n < 64 → (is_line_end (symbol n) ≡ false) × ((symbol n == b'=') ≡ false)
symbol_plain n h = ground (arith, good n h)

keeps_symbol :
    (n : ℕ) (cs : Bytes)
    → n < 64
    → without_line_ends (symbol n ∷ cs) ≡ symbol n ∷ without_line_ends cs
unfolding without_line_ends
keeps_symbol n cs h = rw ((symbol_plain n h).0)

without_line_ends-encode : (bs : Bytes) → All IsByte bs → without_line_ends (encode bs) ≡ encode bs
unfolding encode without_line_ends
without_line_ends-encode [] h = refl
without_line_ends-encode (a ∷ []) h = ground (
  arith,
  keeps_symbol (a / 4) (symbol (a % 4 * 16) ∷ b'=' ∷ b'=' ∷ []),
  keeps_symbol (a % 4 * 16) (b'=' ∷ b'=' ∷ []),
)
without_line_ends-encode (a ∷ b ∷ []) h = ground (
  arith,
  keeps_symbol (a / 4) (symbol (a % 4 * 16 + b / 16) ∷ symbol (b % 16 * 4) ∷ b'=' ∷ []),
  keeps_symbol (a % 4 * 16 + b / 16) (symbol (b % 16 * 4) ∷ b'=' ∷ []),
  keeps_symbol (b % 16 * 4) (b'=' ∷ []),
)
without_line_ends-encode (a ∷ b ∷ c ∷ rest) h = rw ((symbol_plain (a / 4) (omega arith)).0) (
    rw ((symbol_plain (a % 4 * 16 + b / 16) (omega arith)).0) (
      rw ((symbol_plain (b % 16 * 4 + c / 64) (omega arith)).0) (
        rw ((symbol_plain (c % 64) (omega arith)).0) (rw (without_line_ends-encode rest h.1.1.1)))))

decode_groups-encode : (bs : Bytes) → All IsByte bs → decode_groups (encode bs) ≡ some bs
unfolding decode_groups encode
decode_groups-encode [] h = refl
decode_groups-encode (a ∷ []) h = ground (arith, value-symbol (a / 4), value-symbol (a % 4 * 16))
decode_groups-encode (a ∷ b ∷ []) h = ground (
  arith,
  value-symbol (a / 4),
  value-symbol (a % 4 * 16 + b / 16),
  value-symbol (b % 16 * 4),
  symbol_plain (b % 16 * 4),
)
decode_groups-encode (a ∷ b ∷ c ∷ rest) h = ground (
  arith,
  value-symbol (a / 4),
  value-symbol (a % 4 * 16 + b / 16),
  value-symbol (b % 16 * 4 + c / 64),
  value-symbol (c % 64),
  symbol_plain (c % 64),
  decode_groups-encode rest,
)

-- `DecodeString` gives back what `EncodeToString` was given.
pub decode-encode : (bs : Bytes) → All IsByte bs → decode (encode bs) ≡ some bs
unfolding decode
decode-encode bs h = rw (without_line_ends-encode bs h) (decode_groups-encode bs h)

symbol-ne-comma : (n : ℕ) → symbol n ≢ b','
unfolding symbol
symbol-ne-comma n = ground arith

abbrev HasNoComma : Bytes → Type 0
HasNoComma = All (λ b. b ≢ b',')

pad-ne-comma : ◌≢◌ {A = ℕ} b'=' b','
pad-ne-comma = ground arith

four-HasNoComma :
    (a b c d : ℕ) (rest : Bytes)
    → (a ≢ b',') × (b ≢ b',') × (c ≢ b',') × (d ≢ b',')
    → HasNoComma rest
    → HasNoComma (a ∷ b ∷ c ∷ d ∷ rest)
four-HasNoComma a b c d rest h k = (h.0, (h.1, (h.2, (h.3, k))))

-- No comma stands in base64 text.
pub encode-HasNoComma : (bs : Bytes) → All (λ b. b ≢ b',') (encode bs)
unfolding encode
encode-HasNoComma [] = tt
encode-HasNoComma (a ∷ []) =
    four-HasNoComma (symbol (a / 4)) (symbol (a % 4 * 16)) b'=' b'=' []
      (symbol-ne-comma (a / 4), symbol-ne-comma (a % 4 * 16), pad-ne-comma, pad-ne-comma) tt
encode-HasNoComma (a ∷ b ∷ []) =
    four-HasNoComma (symbol (a / 4)) (symbol (a % 4 * 16 + b / 16)) (symbol (b % 16 * 4)) b'=' []
      (
        symbol-ne-comma (a / 4),
        symbol-ne-comma (a % 4 * 16 + b / 16),
        symbol-ne-comma (b % 16 * 4),
        pad-ne-comma,
      )
      tt
encode-HasNoComma (a ∷ b ∷ c ∷ rest) =
    four-HasNoComma (symbol (a / 4)) (symbol (a % 4 * 16 + b / 16)) (symbol (b % 16 * 4 + c / 64))
      (symbol (c % 64)) (encode rest)
      (
        symbol-ne-comma (a / 4),
        symbol-ne-comma (a % 4 * 16 + b / 16),
        symbol-ne-comma (b % 16 * 4 + c / 64),
        symbol-ne-comma (c % 64),
      )
      (encode-HasNoComma rest)
