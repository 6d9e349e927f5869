-- ===== src/Net/Exit.antt =====
-- How a Go call ends: it returns a value, it returns an error, or it panics. The faults are the
-- errors and early returns of internal/gateway; the messages that format them are not modelled.
pub mod Action
pub mod Ensures
pub mod Ends
pub mod Fuel
use credential_gateway.Common.{
  ℕ, Bytes, length, get_elem?, drop, leb, Bool, true, false, Option, none, some, if◌then◌else◌,
}

pub data Fault : Type 0 where
  -- a read, a write or a dial that failed
  eof unexpected_eof write_failed dial_failed : Fault
  -- a length field below what its packet needs
  length_too_small : ℕ → Fault
  -- internal/gateway/mysql.go
  not_handshake handshake_too_short nonce_out_of_range response_too_short : Fault
  unsupported_plugin : Bytes → Fault
  upstream_rejected : Fault
  -- internal/gateway/postgres.go
  startup_too_short : Fault
  unexpected_protocol : ℕ → Fault
  md5_too_short no_mechanism unsupported_auth : Fault
  unexpected_sasl_continue unexpected_sasl_final : Fault
  upstream_error : Bytes → Fault
  unexpected_message : ℕ → Fault
  malformed_server_first nonce_mismatch bad_salt bad_iterations signature_mismatch : Fault
  -- internal/gateway/redis.go
  rejected_auth : Bytes → Fault
  -- internal/gateway/oracle.go
  refused : Fault
  unexpected_type : ℕ → Fault
  not_o3log auth_rejected : Fault
  -- no Go value: a model's loop ran out of fuel
  out_of_fuel : Fault

pub data Exit {ℓ} (A : Type ℓ) : Type ℓ where
  done : A → Exit A
  failed : Fault → Exit A
  panicked : Exit A

infixl 5 ◌>>=◌ ◌>>◌
abbrev pub ◌>>=◌ {ℓ κ} : {A : Type ℓ} {B : Type κ} → Exit A → (A → Exit B) → Exit B
done a >>= f = f a
failed e >>= f = failed e
panicked >>= f = panicked

abbrev pub ◌>>◌ {ℓ κ} : {A : Type ℓ} {B : Type κ} → Exit A → Exit B → Exit B
m >> k = m >>= λ _. k

-- `if bad { return err }`.
abbrev pub fail_if : Bool → Fault → Exit (Unit {0})
fail_if true e = failed e
fail_if false e = done tt

-- A value, or a panic.
abbrev pub or_panic {ℓ} : {A : Type ℓ} → Option A → Exit A
or_panic none = panicked
or_panic (some a) = done a

-- `xs[i]`.
abbrev pub index : Bytes → ℕ → Exit ℕ
index xs i = or_panic (get_elem? xs i)

-- `xs[n:]`, which panics past the end.
abbrev pub slice_from : ℕ → Bytes → Exit Bytes
slice_from n xs = if leb n (length xs) then done (drop n xs) else panicked

-- The value of a call that ends without error.
abbrev pub Returns {ℓ} : {A : Type ℓ} → Exit A → (A → Type 0) → Type 0
Returns (done a) P = P a
Returns (failed e) P = ⊥
Returns panicked P = ⊥
