-- ===== src/Redis/Auth.antt =====
-- internal/gateway/redis.go: `discardClientAuth`, `consumeArrayAuth` and `consumeInlineAuth`.
pub mod Buffered
pub mod Opens
use credential_gateway.Common.{
  ℕ, zero, suc, ◌+◌, ◌-◌, Bytes, Bool, true, false, ◌&&◌, ◌||◌, List, [], ◌∷◌, length, map, take,
  drop, Option, none, some, ltb, leb, ◌==◌, if◌then◌else◌,
}
use credential_gateway.Common.Texts.{codes, is_empty, equal}
use credential_gateway.Std.Decimal.{ℤ, pos, negsuc, scan_int, or_zero}
use credential_gateway.Net.Exit.{Exit, done, panicked, index}
use credential_gateway.Net.Exit.Action.{Action, pure, lift, ◌>>=◌, ◌>>◌}
use credential_gateway.Net.Reader.{Source, attempt}

-- `strings.EqualFold`, for text of which one side is ASCII without `k` and `s`.
abbrev upper : ℕ → ℕ
upper c = if leb b'a' c && leb c b'z' then c - 32 else c

unfoldable pub equal_fold : Bytes → Bytes → Bool
unfolding equal
equal_fold xs ys = equal (map upper xs) (map upper ys)

-- `strings.TrimRight(s, "\r\n")`.
unfoldable pub trim_line : Bytes → Bytes
trim_line [] = []
trim_line (c ∷ cs) =
    let rest = trim_line cs in if is_empty rest && (c == b'\r' || c == b'\n') then [] else c ∷ rest

-- `fmt.Sscanf(line, "$%d", &n)`, which leaves `n` at 0 where the line does not match.
abbrev pub scan_length : Bytes → ℤ
scan_length [] = pos 0
scan_length (c ∷ cs) = if c == b'$' then or_zero (scan_int cs) else pos 0

-- The length and the name of the command, in the first 13 bytes of an array.
abbrev pub array_command : Bytes → Bool
array_command p13 =
    equal (take 4 (drop 4 p13)) (codes "$4\r\n") && equal_fold (take 4 (drop 8 p13)) (codes "AUTH")

abbrev pub ok_reply : Bytes
ok_reply = codes "+OK\r\n"

-- `max_alloc`, below 2^63, stands for the length above which the runtime's `make` panics.
module _ (max_alloc : ℕ) where
  -- The length of `make([]byte, n+2)`.
  abbrev pub make_length : ℤ → Exit ℕ
  make_length (pos n) = if leb (n + 2) max_alloc then done (n + 2) else panicked
  make_length (negsuc zero) = done 1
  make_length (negsuc (suc zero)) = done 0
  make_length (negsuc (suc (suc n))) = panicked

  module _ {S : Type 0} (br : Source S) where
    -- `consumeArrayAuth`.
    unfoldable pub consume_array_auth : Action S (Unit {0})
    unfolding trim_line
    consume_array_auth = do
      br.read_line
      br.read_line
      br.read_line
      line ← br.read_line
      n ← lift (make_length (scan_length (trim_line line)))
      br.read_exactly n
      br.put ok_reply

    -- `consumeInlineAuth`.
    unfoldable pub consume_inline_auth : Action S (Unit {0})
    consume_inline_auth = do br.read_line; br.put ok_reply

    abbrev pub if_peeked : ℕ → (Bytes → Action S (Unit {0})) → Option Bytes → Action S (Unit {0})
    if_peeked n k none = pure tt
    if_peeked n k (some p) = if ltb (length p) n then pure tt else k p

    abbrev pub array_form : Bytes → Action S (Unit {0})
    array_form p13 = if array_command p13 then consume_array_auth else pure tt

    abbrev pub inline_test : ℕ → Action S (Unit {0})
    inline_test c = if c == b' ' || (c == b'\r' || c == b'\n') then consume_inline_auth else pure tt

    abbrev pub inline_form : Bytes → Action S (Unit {0})
    inline_form p5 = lift (index p5 4) >>= inline_test

    -- What the first four bytes say.
    abbrev pub opening : Bytes → Action S (Unit {0})
    opening p4 =
        if equal p4 (codes "*2\r\n")
        then (attempt (br.peek 13) >>= if_peeked 13 array_form)
        else if equal_fold p4 (codes "AUTH")
        then (attempt (br.peek 5) >>= if_peeked 0 inline_form)
        else pure tt

    -- `discardClientAuth`.
    unfoldable pub discard_client_auth : Action S (Unit {0})
    unfolding consume_array_auth consume_inline_auth equal_fold
    discard_client_auth = attempt (br.peek 4) >>= if_peeked 4 opening
