-- ===== src/Std/Decimal.antt =====
-- Numbers in text: the verb `%d` of `fmt.Sprintf` and of `fmt.Sscanf`.
pub mod RoundTrip
use credential_gateway.Common.{
  ℕ, zero, suc, ◌+◌, ◌-◌, ◌*◌, ◌/◌, ◌%◌, ◌^◌, Bytes, Bool, true, false, ◌&&◌, ◌||◌, [], ◌∷◌, ◌++◌,
  Option, none, some, ltb, leb, ◌==◌, if◌then◌else◌,
}

-- `negsuc n` is -(n + 1).
pub data ℤ : Type 0 where
  pos : ℕ → ℤ
  negsuc : ℕ → ℤ

-- The decimal digits, the most significant first; `n` rounds of division by 10 are enough.
unfoldable pub digits_from : ℕ → ℕ → Bytes
digits_from zero n = (b'0' + n % 10) ∷ []
digits_from (suc f) n =
    let front = digits_from f (n / 10) in
    if ltb n 10 then (b'0' + n) ∷ [] else front ++ ((b'0' + n % 10) ∷ [])

-- `Sprintf("%d", n)` of a number that is not negative.
unfoldable pub decimal : ℕ → Bytes
unfolding digits_from
decimal n = digits_from n n

abbrev pub is_digit : ℕ → Bool
is_digit c = leb b'0' c && leb c b'9'

-- The white space of one byte.
abbrev pub is_space : ℕ → Bool
is_space c = c == b' ' || leb 9 c && leb c 13

-- The value of the digits at the front, behind `acc`; `none` where there is none.
unfoldable pub scan_digits : ℕ → Bytes → ℕ
scan_digits acc [] = acc
scan_digits acc (c ∷ cs) =
    let rest = scan_digits (acc * 10 + (c - b'0')) cs in if is_digit c then rest else acc

abbrev pub starts_with_digit : Bytes → Bool
starts_with_digit [] = false
starts_with_digit (c ∷ cs) = is_digit c

-- A 64-bit integer of that sign, and the error out of range.
abbrev pub signed : Bool → ℕ → Option ℤ
signed true n =
    if n == 0 then some (pos 0) else if leb n (2 ^ 63) then some (negsuc (n - 1)) else none
signed false n = if ltb n (2 ^ 63) then some (pos n) else none

abbrev pub scan_number : Bool → Bytes → Option ℤ
scan_number negative cs = if starts_with_digit cs then signed negative (scan_digits 0 cs) else none

abbrev pub scan_sign : Bytes → Option ℤ
scan_sign [] = none
scan_sign (c ∷ cs) =
    if c == b'-'
    then scan_number true cs
    else if c == b'+'
    then scan_number false cs
    else scan_number false (c ∷ cs)

-- `fmt.Sscanf(s, "%d", &n)`: white space but no line end, a sign, digits; `none` is an error,
-- which leaves `n` as it was. What follows the digits is not read.
unfoldable pub scan_int : Bytes → Option ℤ
unfolding scan_digits
scan_int [] = none
scan_int (c ∷ cs) =
    let rest = scan_int cs in
    if c == b'\n' then none else if is_space c then rest else scan_sign (c ∷ cs)

-- The number that `fmt.Sscanf` leaves in a variable that was 0.
abbrev pub or_zero : Option ℤ → ℤ
or_zero none = pos 0
or_zero (some n) = n
