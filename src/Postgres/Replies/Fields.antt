-- ===== src/Postgres/Replies/Fields.antt =====
-- What `pgParseError` finds in an ErrorResponse.
use credential_gateway.Common.{
  ℕ, zero, suc, ◌≤◌, ◌≡◌, refl, Bytes, List, [], ◌∷◌, ◌++◌, length, ◌==◌, arith, All, inl, inr,
  Bool-cases, length-append, if◌then◌else◌,
}
use credential_gateway.Common.Texts.{HasNoNul}
use credential_gateway.Net.Exit.{Exit, done, panicked, slice_from}
use credential_gateway.Postgres.Startup.Params.{cut_string-terminated, cut_string-panicked}
use credential_gateway.Postgres.Replies.{error_loop, parse_error}

-- The fields of a message, each a type and a string, with the final zero byte.
abbrev pub fields : List (ℕ × Bytes) → Bytes
fields [] = 0 ∷ []
fields ((t, v) ∷ fs) = t ∷ (v ++ (0 ∷ fields fs))

-- The first field of type M; without one the final zero byte is taken for a type.
abbrev pub first_message : List (ℕ × Bytes) → Exit Bytes
first_message [] = panicked
first_message ((t, v) ∷ fs) = if t == b'M' then done v else first_message fs

error_loop-fields :
    (f : ℕ) (fs : List (ℕ × Bytes))
    → All (λ p. HasNoNul (p.1)) fs
    → length (fields fs) ≤ f
    → error_loop f (fields fs) ≡ first_message fs
unfolding error_loop
error_loop-fields zero [] h l = absurd (omega arith)
error_loop-fields (suc f) [] h l = rw (cut_string-panicked [] tt) refl
error_loop-fields zero ((t, v) ∷ fs) h l = absurd (omega arith)
error_loop-fields (suc f) ((t, v) ∷ fs) h l =
    let ih = error_loop-fields f fs h.1 (omega (arith, length-append v (0 ∷ fields fs))) in
    rw (cut_string-terminated v (fields fs) h.0)
      (elim (Bool-cases (t == b'M')) [ inl e ↦ rw e refl | inr e ↦ rw e ih ])

slice_body : (t : ℕ) (body : Bytes) → slice_from 1 (t ∷ body) ≡ done body
slice_body t body = ground arith

-- In an ErrorResponse with its final zero byte, `pgParseError` finds the string of the first field
-- of type M, and it panics if there is none.
pub parse_error-fields :
    (fs : List (ℕ × Bytes))
    → All (λ p. HasNoNul (p.1)) fs
    → parse_error (b'E' ∷ fields fs) ≡ first_message fs
unfolding parse_error
parse_error-fields fs h =
    rw (slice_body b'E' (fields fs)) (error_loop-fields (length (fields fs)) fs h (omega arith))
