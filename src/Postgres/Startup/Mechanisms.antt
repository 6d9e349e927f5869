-- ===== src/Postgres/Startup/Mechanisms.antt =====
-- internal/gateway/postgres.go: the mechanisms of an AuthenticationSASL message, read.
use credential_gateway.Common.{
  ℕ, zero, suc, ◌<◌, ◌≡◌, refl, ap, ◌∙◌, Bytes, false, List, [], ◌∷◌, ◌++◌, length, arith,
  append_assoc, append-nil, length-append, All,
}
use credential_gateway.Common.Texts.{is_empty, HasNoNul}
use credential_gateway.Net.Exit.{done}
use credential_gateway.Postgres.Startup.{mechanisms_loop, parse_sasl_mechanisms}
use credential_gateway.Postgres.Startup.Params.{
  cut_string-terminated, key_test, nonempty_test, nul_first,
}

-- The names on the wire, with the end behind them.
abbrev pub names_wire : List Bytes → Bytes
names_wire [] = 0 ∷ []
names_wire (name ∷ names) = name ++ (0 ∷ names_wire names)

-- Not empty, and no NUL.
abbrev pub IsName : Bytes → Type 0
IsName name = (is_empty name ≡ false) × HasNoNul name

mechanisms_loop-names_wire :
    (names : List Bytes) (f : ℕ) (out : List Bytes)
    → All IsName names
    → length names < f
    → mechanisms_loop f (names_wire names) out ≡ done (out ++ names)
unfolding mechanisms_loop
mechanisms_loop-names_wire names zero out h l = absurd (omega arith)
mechanisms_loop-names_wire [] (suc f) out h l = rw (nul_first [], append-nil out) refl
mechanisms_loop-names_wire (name ∷ names) (suc f) out h l =
    let rest = names_wire names in
    rw
      (
        nonempty_test name rest,
        key_test name rest h.0.0 h.0.1,
        cut_string-terminated name rest h.0.1,
      )
      (mechanisms_loop-names_wire names f (out ++ (name ∷ [])) h.1 (omega (arith, l))
        ∙ ap done (append_assoc out (name ∷ []) names))

length-names_wire : (names : List Bytes) → length names < length (names_wire names)
length-names_wire [] = omega arith
length-names_wire (name ∷ names) =
    omega (arith, length-names_wire names, length-append name (0 ∷ names_wire names))

-- Any names that are not empty and have no NUL, as a server offers them, are read back in their
-- order.
pub parse_sasl_mechanisms-names_wire :
    (names : List Bytes) → All IsName names → parse_sasl_mechanisms (names_wire names) ≡ done names
unfolding parse_sasl_mechanisms
parse_sasl_mechanisms-names_wire names h =
    mechanisms_loop-names_wire names (length (names_wire names)) [] h (length-names_wire names)
