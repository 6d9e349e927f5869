-- ===== src/Postgres/Handle/Spends.antt =====
-- What the PostgreSQL proxy's messages and exchange take of the upstream's stream.
use credential_gateway.Common.{
  ℕ, zero, suc, ◌-◌, ◌≤◌, ◌≢◌, Bytes, not, ◌&&◌, Option, none, some, List, [], ◌∷◌, length, take,
  drop, ltb, ◌==◌, arith, inl, inr, Bool-cases,
}
use credential_gateway.Common.Texts.{is_empty, nul_index, has_prefix}
use credential_gateway.Common.Words.{of_be}
use credential_gateway.Std.Base64.{encode, decode}
use credential_gateway.Std.Decimal.{ℤ, pos, negsuc, scan_int, or_zero}
use credential_gateway.Net.Exit.{
  Fault, Exit, failed, out_of_fuel, fail_if, slice_from, bad_salt, malformed_server_first,
  nonce_mismatch, unexpected_sasl_continue, unexpected_sasl_final,
}
use credential_gateway.Net.Exit.Ends.{Ends, Ends-never, Ends-fail_if, Ends-bind, Ends-slice_from}
use credential_gateway.Net.Exit.Fuel.{Spends, Spends-pure, Spends-lift, Spends-bind, Spends-weaker}
use credential_gateway.Net.World.Fuel.{left, Spends-read_full, Spends-write}
use credential_gateway.Postgres.Message.{read_startup, write_startup, read_message, write_message}
use credential_gateway.Postgres.Startup.{mechanisms_loop, parse_sasl_mechanisms}
use credential_gateway.Postgres.Startup.Params.{cut_then}
use credential_gateway.Postgres.Replies.{error_loop}
use credential_gateway.Postgres.Scram.{
  parse_attributes, attribute, read_challenge, or_fail, positive,
}
use credential_gateway.Postgres.Scram.Exchange.{sasl_body, do_scram}

-- The loops over strings return no error at all.
mechanisms_loop-failed :
    (f : ℕ) (data_ : Bytes) (out : List Bytes) (e : Fault)
    → length data_ ≤ f
    → mechanisms_loop f data_ out ≢ failed e
unfolding mechanisms_loop
mechanisms_loop-failed zero [] out e l h = cc
mechanisms_loop-failed zero (b ∷ bs) out e l h = absurd (omega arith)
mechanisms_loop-failed (suc f) [] out e l h = cc
mechanisms_loop-failed (suc f) (b ∷ bs) out e l h = elim (Bool-cases (nul_index (b ∷ bs) == 0)) [
  | inl p ↦ cc (rw p at h)
  | inr p ↦
      let (name, shorter, k) = cut_then (b ∷ bs) _ e (rw p at h) in
      mechanisms_loop-failed f (name.1) _ e (omega arith) k
]

pub error_loop-failed :
    (f : ℕ) (data_ : Bytes) (e : Fault) → length data_ ≤ f → error_loop f data_ ≢ failed e
unfolding error_loop
error_loop-failed zero [] e l h = cc
error_loop-failed (suc f) [] e l h = cc
error_loop-failed zero (t ∷ body) e l h = absurd (omega arith)
error_loop-failed (suc f) (t ∷ body) e l h =
    let (val, shorter, k) = cut_then body _ e h in
    elim (Bool-cases (t == b'M')) [
      | inl p ↦ cc (rw p at k)
      | inr p ↦ error_loop-failed f (val.1) e (omega arith) (rw p at k)
    ]

pub mechanisms-Ends : (data_ : Bytes) → Ends (parse_sasl_mechanisms data_)
unfolding parse_sasl_mechanisms
mechanisms-Ends data_ =
    Ends-never _ (λ e. mechanisms_loop-failed (length data_) data_ [] e (omega arith))

-- Messages.
pub read_message-Spends : Spends left 1 read_message
unfolding read_message
read_message-Spends = Spends-weaker 5 1 (omega arith) (
    Spends-bind 5 0 (Spends-read_full 5) λ hdr.
      Spends-bind 0 0 (Spends-lift _ (Ends-fail_if _ _ (λ q. cc))) λ _.
        Spends-bind 0 0
          (Spends-weaker _ 0 (omega arith) (Spends-read_full (of_be (drop 1 hdr) - 4)))
          λ body. Spends-pure _)

pub read_startup-Spends : Spends left 0 read_startup
unfolding read_startup
read_startup-Spends = Spends-bind 0 0 (Spends-weaker 4 0 (omega arith) (Spends-read_full 4)) λ word.
    Spends-bind 0 0 (Spends-lift _ (Ends-fail_if _ _ (λ q. cc)))
      λ _. Spends-weaker (of_be word - 4) 0 (omega arith) (Spends-read_full (of_be word - 4))

pub write_startup-Spends : (body : Bytes) → Spends left 0 (write_startup body)
unfolding write_startup
write_startup-Spends body = Spends-bind 0 0 (Spends-write _) λ _. Spends-write body

pub write_message-Spends : (msg : Bytes) → Spends left 0 (write_message msg)
unfolding write_message
write_message-Spends [] = record { at = λ c. tt }
write_message-Spends (t ∷ body) = Spends-bind 0 0 (Spends-write _) λ _.
    Spends-bind 0 0 (Spends-lift (slice_from 1 (t ∷ body)) (Ends-slice_from 1 (t ∷ body)))
      λ b. Spends-write b

-- SCRAM.
sasl_body-Ends :
    (e : Fault) (code : ℕ) (msg : Bytes) → e ≢ out_of_fuel → Ends (sasl_body e code msg)
sasl_body-Ends e code [] h = tt
sasl_body-Ends e code (b ∷ bs) h = elim (Bool-cases (ltb (length bs) 4)) [
  | inl p ↦ rw p tt
  | inr p ↦ rw p (elim (Bool-cases (b == b'R' && of_be (take 4 bs) == code)) [
    | inl q ↦ rw q tt
    | inr q ↦ rw q h
  ])
]

or_fail-Ends : (o : Option Bytes) → Ends (or_fail o bad_salt)
or_fail-Ends none = λ q. cc
or_fail-Ends (some a) = tt

positive-Ends : (n : ℤ) → Ends (positive n)
positive-Ends (pos zero) = λ q. cc
positive-Ends (pos (suc n)) = tt
positive-Ends (negsuc n) = λ q. cc

read_challenge-Ends : (nonce text : Bytes) → Ends (read_challenge nonce text)
unfolding read_challenge
read_challenge-Ends nonce text =
    let sf = parse_attributes text in
    Ends-bind (fail_if (is_empty sf) malformed_server_first) _ (Ends-fail_if _ _ (λ q. cc)) λ _.
      Ends-bind (fail_if (not (has_prefix (attribute b'r' sf) nonce)) nonce_mismatch) _
        (Ends-fail_if _ _ (λ q. cc))
        λ _. Ends-bind (or_fail (decode (attribute b's' sf)) bad_salt) _ (or_fail-Ends _) λ salt.
          Ends-bind (positive (or_zero (scan_int (attribute b'i' sf)))) _ (positive-Ends _) λ n. tt

pub do_scram-Spends :
    (random : Exit Bytes) (password : Bytes)
    → Ends random
    → Spends left 0 (do_scram random password)
unfolding do_scram
do_scram-Spends random password h = Spends-bind 0 0 (Spends-lift random h) λ bytes.
    Spends-bind 0 0 (write_message-Spends _) λ _.
      Spends-bind 0 0 (Spends-weaker 1 0 (omega arith) read_message-Spends) λ msg.
        Spends-bind 0 0
          (Spends-lift (sasl_body unexpected_sasl_continue 11 msg)
            (sasl_body-Ends _ 11 msg (λ q. cc)))
          λ server_first.
            Spends-bind 0 0
              (Spends-lift (read_challenge (encode bytes) server_first)
                (read_challenge-Ends (encode bytes) server_first))
              λ c. Spends-bind 0 0 (write_message-Spends _) λ _.
                Spends-bind 0 0 (Spends-weaker 1 0 (omega arith) read_message-Spends) λ msg'.
                  Spends-bind 0 0
                    (Spends-lift (sasl_body unexpected_sasl_final 12 msg')
                      (sasl_body-Ends _ 12 msg' (λ q. cc)))
                    λ server_final. Spends-lift _ (Ends-fail_if _ _ (λ q. cc))
