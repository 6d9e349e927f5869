-- ===== src/Postgres/Startup.antt =====
-- internal/gateway/postgres.go: the bodies of messages, built and parsed.
pub mod Mechanisms
pub mod Params
use credential_gateway.Common.{
  ℕ, zero, suc, ◌+◌, Bytes, Bool, List, [], ◌∷◌, ◌++◌, length, take, drop, Option, none, some, ◌==◌,
  if◌then◌else◌,
}
use credential_gateway.Common.Texts.{codes, is_empty, equal, nul_index}
use credential_gateway.Common.Words.{be32}
use credential_gateway.Net.Exit.{Exit, done, failed, out_of_fuel, slice_from, ◌>>=◌}

-- A string with a NUL behind it.
abbrev pub terminated : Bytes → Bytes
terminated s = s ++ (0 ∷ [])

-- `pgBuildStartup`: protocol 3.0, the user, the database if there is one, and the end.
unfoldable pub build_startup : Bytes → Bytes → Bytes
build_startup user database =
    be32 196608
    ++ (terminated (codes "user")
        ++ (terminated user
            ++ ((if is_empty database
                  then []
                  else terminated (codes "database") ++ terminated database)
                ++ (0 ∷ []))))

-- A string up to the first NUL, and what follows the NUL; without a NUL the slice of what
-- follows is out of range.
unfoldable pub cut_string : Bytes → Exit (Bytes × Bytes)
cut_string data_ = do
  rest ← slice_from (nul_index data_ + 1) data_
  done (take (nul_index data_) data_, rest)

-- A Go map: a key set later comes first.
abbrev pub Params : Type 0
Params = List (Bytes × Bytes)

unfoldable pub param : Bytes → Params → Option Bytes
param key [] = none
param key ((k, v) ∷ rest) = if equal key k then some v else param key rest

-- The loop of `pgParseParams`; every round takes two bytes at least.
unfoldable pub params_loop : ℕ → Bytes → Params → Exit Params
params_loop zero data_ params = if is_empty data_ then done params else failed out_of_fuel
params_loop (suc f) data_ params =
    let later = λ (rest : Bytes) (ps : Params). params_loop f rest ps in
    if is_empty data_ then done params else if nul_index data_ == 0 then done params else do
      (key, values) ← cut_string data_
      (val, rest) ← cut_string values
      later rest ((key, val) ∷ params)

-- `pgParseParams`.
unfoldable pub parse_params : Bytes → Exit Params
unfolding params_loop cut_string
parse_params data_ = params_loop (length data_) data_ []

-- `pgBuildPasswordMessage`.
unfoldable pub build_password_message : Bytes → Bytes
build_password_message password = b'p' ∷ terminated password

-- The loop of `pgParseSASLMechanisms`, and the function.
unfoldable pub mechanisms_loop : ℕ → Bytes → List Bytes → Exit (List Bytes)
mechanisms_loop zero data_ out = if is_empty data_ then done out else failed out_of_fuel
mechanisms_loop (suc f) data_ out =
    let later = λ (rest : Bytes) (names : List Bytes). mechanisms_loop f rest names in
    if is_empty data_
    then done out
    else if nul_index data_ == 0
    then done out
    else do (name, rest) ← cut_string data_; later rest (out ++ (name ∷ []))

unfoldable pub parse_sasl_mechanisms : Bytes → Exit (List Bytes)
unfolding mechanisms_loop
parse_sasl_mechanisms data_ = mechanisms_loop (length data_) data_ []

-- `pgBuildSASLInitialResponse` and `pgBuildSASLResponse`.
unfoldable pub build_sasl_initial_response : Bytes → Bytes → Bytes
build_sasl_initial_response mechanism client_data =
    b'p' ∷ (mechanism ++ (0 ∷ (be32 (length client_data) ++ client_data)))

unfoldable pub build_sasl_response : Bytes → Bytes
build_sasl_response data_ = b'p' ∷ data_
