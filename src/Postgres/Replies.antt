-- ===== src/Postgres/Replies.antt =====
-- internal/gateway/postgres.go: `pgMD5Password` and `pgParseError`.
pub mod Fields
use credential_gateway.Common.{
  ℕ, zero, suc, ◌+◌, ◌-◌, ◌/◌, ◌%◌, Bytes, [], ◌∷◌, ◌++◌, length, ltb, ◌==◌, if◌then◌else◌,
}
use credential_gateway.Common.Texts.{codes}
use credential_gateway.Std.Digest.Md5.{md5}
use credential_gateway.Net.Exit.{Exit, done, failed, out_of_fuel, slice_from, ◌>>=◌}
use credential_gateway.Postgres.Startup.{cut_string}

abbrev hex_digit : ℕ → ℕ
hex_digit n = if ltb n 10 then b'0' + n else b'a' + (n - 10)

-- `Sprintf("%x", bytes)`.
unfoldable pub hex : Bytes → Bytes
hex [] = []
hex (b ∷ bs) = hex_digit (b / 16) ∷ hex_digit (b % 16) ∷ hex bs

-- `pgMD5Password`.
unfoldable pub md5_password : Bytes → Bytes → Bytes → Bytes
unfolding hex
md5_password user password salt = codes "md5" ++ hex (md5 (hex (md5 (password ++ user)) ++ salt))

-- The loop of `pgParseError` over the fields, each a type and a string; every round takes two
-- bytes at least.
unfoldable pub error_loop : ℕ → Bytes → Exit Bytes
error_loop f [] = done (codes "(unknown error)")
error_loop zero (t ∷ body) = failed out_of_fuel
error_loop (suc f) (t ∷ body) =
    let later = λ (rest : Bytes). error_loop f rest in
    do (val, rest) ← cut_string body; if t == b'M' then done val else later rest

-- `pgParseError`: an empty message has no body to slice.
unfoldable pub parse_error : Bytes → Exit Bytes
unfolding error_loop
parse_error msg = do body ← slice_from 1 msg; error_loop (length body) body
