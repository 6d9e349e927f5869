-- ===== src/Std/Base64.antt =====
-- encoding/base64: `StdEncoding`, with padding.
pub mod RoundTrip
use credential_gateway.Common.{
  ℕ, ◌+◌, ◌-◌, ◌*◌, ◌/◌, ◌%◌, Bytes, Bool, true, false, not, ◌&&◌, ◌||◌, List, [], ◌∷◌, ◌++◌,
  Option, none, some, ltb, leb, ◌==◌, if◌then◌else◌,
}
use credential_gateway.Common.Texts.{is_empty}

-- The character of a group of six bits.
unfoldable pub symbol : ℕ → ℕ
symbol n =
    if ltb n 26
    then b'A' + n
    else if ltb n 52
    then b'a' + (n - 26)
    else if ltb n 62
    then b'0' + (n - 52)
    else if n == 62
    then b'+'
    else b'/'

abbrev pub within : ℕ → ℕ → ℕ → Bool
within lo hi c = leb lo c && leb c hi

-- The six bits of a character of the alphabet.
unfoldable pub value : ℕ → Option ℕ
value c =
    if within b'A' b'Z' c
    then some (c - b'A')
    else if within b'a' b'z' c
    then some (c - b'a' + 26)
    else if within b'0' b'9' c
    then some (c - b'0' + 52)
    else if c == b'+'
    then some 62
    else if c == b'/'
    then some 63
    else none

-- `EncodeToString`.
unfoldable pub encode : Bytes → Bytes
encode [] = []
encode (a ∷ []) = symbol (a / 4) ∷ symbol (a % 4 * 16) ∷ b'=' ∷ b'=' ∷ []
encode (a ∷ b ∷ []) =
    symbol (a / 4) ∷ symbol (a % 4 * 16 + b / 16) ∷ symbol (b % 16 * 4) ∷ b'=' ∷ []
encode (a ∷ b ∷ c ∷ rest) =
    symbol (a / 4)
    ∷ symbol (a % 4 * 16 + b / 16)
    ∷ symbol (b % 16 * 4 + c / 64)
    ∷ symbol (c % 64)
    ∷ encode rest

-- Line ends are skipped wherever they stand.
abbrev pub is_line_end : ℕ → Bool
is_line_end c = c == b'\n' || c == b'\r'

unfoldable pub without_line_ends : Bytes → Bytes
without_line_ends [] = []
without_line_ends (c ∷ cs) =
    let rest = without_line_ends cs in if is_line_end c then rest else c ∷ rest

infixl 5 ◌>>=◌
abbrev ◌>>=◌ {ℓ κ} : {A : Type ℓ} {B : Type κ} → Option A → (A → Option B) → Option B
none >>= f = none
some a >>= f = f a

abbrev when {ℓ} : {A : Type ℓ} → Bool → A → Option A
when true a = some a
when false a = none

-- The bits behind the last whole byte are ignored, and nothing may follow a padded group.
unfoldable pub decode_groups : Bytes → Option Bytes
decode_groups [] = some []
decode_groups (a ∷ b ∷ c ∷ d ∷ rest) =
    let tail = decode_groups rest in
    value a >>= λ p. value b >>= λ q.
    if d == b'='
    then if c == b'='
      then when (is_empty rest) ((p * 4 + q / 16) ∷ [])
      else (value c >>= λ r. when (is_empty rest) ((p * 4 + q / 16) ∷ (q % 16 * 16 + r / 4) ∷ []))
    else (value c >>= λ r. value d >>= λ s.
        tail >>= λ bs. some ((p * 4 + q / 16) ∷ (q % 16 * 16 + r / 4) ∷ (r % 4 * 64 + s) ∷ bs))
decode_groups _ = none

-- `DecodeString`; `none` is its error.
unfoldable pub decode : Bytes → Option Bytes
unfolding decode_groups without_line_ends
decode s = decode_groups (without_line_ends s)
