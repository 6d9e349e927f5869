-- ===== src/Mysql/Switch/Reading.antt =====
-- What a client reads of the error that answers a request for another plugin.
use credential_gateway.Common.{
  ℕ, ◌+◌, ◌*◌, ◌≡◌, refl, sym, ap, ◌∙◌, bit_and, Bytes, [], ◌∷◌, ◌++◌, length, take, drop, Option,
  none, some, ◌==◌, arith, append-nil, take-append_length, Bool, Bool-cases, inl, inr,
  if◌then◌else◌,
}
use credential_gateway.Common.Texts.{codes, nul_index, HasNoNul, nul_index-append}
use credential_gateway.Mysql.Switch.{parse_auth_switch_plugin, build_err_packet}
use credential_gateway.Mysql.Handle.{switch_message}

-- An ERR packet as the protocol lays it out; the SQLSTATE comes with CLIENT_PROTOCOL_41 only.
pub record ErrPacket : Type 0 where
  pub code : ℕ
  pub sql_state : Option Bytes
  pub message : Bytes

abbrev pub lacks_protocol_41 : ℕ → Bool
lacks_protocol_41 caps = bit_and caps 0x00000200 == 0

-- The SQLSTATE is five bytes behind a `#`.
read_state : ℕ → Bytes → Option ErrPacket
read_state code [] = none
read_state code (mark ∷ bs) =
    if mark == b'#'
    then some (record { code = code; sql_state = some (take 5 bs); message = drop 5 bs })
    else none

-- How a client with those capabilities reads an ERR packet.
unfoldable pub read_err : ℕ → Bytes → Option ErrPacket
unfolding read_state
read_err caps (t ∷ low ∷ high ∷ bs) =
    if t == 0xff
    then (if lacks_protocol_41 caps
        then some (record { code = low + 256 * high; sql_state = none; message = bs })
        else read_state (low + 256 * high) bs)
    else none
read_err caps _ = none

-- The error that a client is meant to read.
abbrev pub auth_error : ℕ → Bytes → ErrPacket
auth_error caps message = record {
  code = 1251;
  sql_state = if lacks_protocol_41 caps then none else some (codes "08004");
  message = message;
}

read_err-build_err_packet :
    (caps : ℕ) (message : Bytes)
    → read_err caps (build_err_packet caps message) ≡ some (auth_error caps message)
unfolding read_err build_err_packet
read_err-build_err_packet caps message = elim (Bool-cases (lacks_protocol_41 caps)) [
  | inl e ↦ rw e refl
  | inr e ↦ rw e refl
]

take_whole : (n : ℕ) (xs : Bytes) → n ≡ length xs → take n xs ≡ xs
take_whole n xs e = ap (take n) (sym (append-nil xs)) ∙ take-append_length n xs [] e

nul_index-HasNoNul : (name : Bytes) → HasNoNul name → nul_index name ≡ length name
unfolding nul_index
nul_index-HasNoNul [] h = refl
nul_index-HasNoNul (b ∷ bs) h = ground (arith, nul_index-HasNoNul bs h.1)

plugin_terminated :
    (name behind : Bytes)
    → HasNoNul name
    → parse_auth_switch_plugin (0xfe ∷ (name ++ (0 ∷ behind))) ≡ name
unfolding parse_auth_switch_plugin nul_index
plugin_terminated [] behind h = refl
plugin_terminated (c ∷ cs) behind h =
    take-append_length (nul_index ((c ∷ cs) ++ (0 ∷ behind))) (c ∷ cs) (0 ∷ behind)
      (nul_index-append (c ∷ cs) behind h)

plugin_unterminated : (name : Bytes) → HasNoNul name → parse_auth_switch_plugin (0xfe ∷ name) ≡ name
unfolding parse_auth_switch_plugin
plugin_unterminated [] h = refl
plugin_unterminated (c ∷ cs) h =
    take_whole (nul_index (c ∷ cs)) (c ∷ cs) (nul_index-HasNoNul (c ∷ cs) h)

-- Asked for another plugin, by its name with a NUL and any data behind it or by its bare name,
-- the gateway answers with an error that the client reads as it was meant, by the client's own
-- capabilities: code 1251, SQLSTATE 08004 if there is one, and the message for that very name.
pub read_err-names_plugin :
    (quote : Bytes → Bytes) (caps : ℕ) (name behind : Bytes)
    → HasNoNul name
    → (read_err caps (
          build_err_packet caps
            (switch_message quote (parse_auth_switch_plugin (0xfe ∷ (name ++ (0 ∷ behind))))))
        ≡ some (auth_error caps (switch_message quote name)))
      × (read_err caps
            (build_err_packet caps (switch_message quote (parse_auth_switch_plugin (0xfe ∷ name))))
          ≡ some (auth_error caps (switch_message quote name)))
read_err-names_plugin quote caps name behind h = (
  rw (plugin_terminated name behind h) (read_err-build_err_packet caps (switch_message quote name)),
  rw (plugin_unterminated name h) (read_err-build_err_packet caps (switch_message quote name)),
)
