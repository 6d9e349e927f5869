-- ===== src/Postgres/Scram/Attributes.antt =====
-- What `pgParseSCRAMServerFirst` reads.
use credential_gateway.Common.{
  ℕ, ◌≡◌, ◌≢◌, refl, ap, ◌∙◌, Bytes, false, List, [], ◌∷◌, ◌++◌, some, All, arith, ◌==◌,
}
use credential_gateway.Postgres.Startup.{Params}
use credential_gateway.Postgres.Scram.{
  onto_first, split_at, cut_at, add_attribute, add_attributes, parse_attributes,
}

-- The text of attributes: `k=v` with commas between.
abbrev pub text : ℕ × Bytes → List (ℕ × Bytes) → Bytes
text (k, v) [] = k ∷ b'=' ∷ v
text (k, v) (p ∷ ps) = k ∷ b'=' ∷ (v ++ (b',' ∷ text p ps))

-- A name of one byte, which is neither a comma nor `=`, and a value without commas.
abbrev pub IsAttribute : ℕ × Bytes → Type 0
IsAttribute (k, v) = (k ≢ b'=') × (k ≢ b',') × All (λ b. b ≢ b',') v

-- The attributes, the last first, as they stand in the map.
abbrev pub collected : List (ℕ × Bytes) → Params → Params
collected [] out = out
collected ((k, v) ∷ ps) out = collected ps ((k ∷ [], v) ∷ out)

test_ne : (b c : ℕ) → b ≢ c → (b == c) ≡ false
test_ne b c h = ground arith

split_at-word :
    (c : ℕ) (w rest : Bytes)
    → All (λ b. b ≢ c) w
    → split_at c (w ++ (c ∷ rest)) ≡ w ∷ split_at c rest
unfolding split_at
split_at-word c [] rest h = ground arith
split_at-word c (b ∷ w) rest h =
    rw (test_ne b c h.0) (ap (onto_first b) (split_at-word c w rest h.1))

split_at-last : (c : ℕ) (w : Bytes) → All (λ b. b ≢ c) w → split_at c w ≡ w ∷ []
unfolding split_at
split_at-last c [] h = refl
split_at-last c (b ∷ w) h = rw (test_ne b c h.0) (ap (onto_first b) (split_at-last c w h.1))

cut_at-pair : (k : ℕ) (v : Bytes) → k ≢ b'=' → cut_at b'=' (k ∷ b'=' ∷ v) ≡ some (k ∷ [], v)
unfolding cut_at
cut_at-pair k v h = rw (test_ne k b'=' h) refl

no_comma : (k : ℕ) (v : Bytes) → IsAttribute (k, v) → All (λ b. b ≢ b',') (k ∷ b'=' ∷ v)
no_comma k v h = (h.1, ((λ e. cc), h.2))

add_attributes-text :
    (p : ℕ × Bytes) (ps : List (ℕ × Bytes)) (out : Params)
    → All IsAttribute (p ∷ ps)
    → add_attributes (split_at b',' (text p ps)) out ≡ collected (p ∷ ps) out
unfolding add_attributes
add_attributes-text (k, v) [] out h =
    rw (split_at-last b',' (k ∷ b'=' ∷ v) (no_comma k v h.0)) (rw (cut_at-pair k v (h.0).0) refl)
add_attributes-text (k, v) (p ∷ ps) out h =
    rw (split_at-word b',' (k ∷ b'=' ∷ v) (text p ps) (no_comma k v h.0)) (
      ap (λ o. add_attributes (split_at b',' (text p ps)) (add_attribute o out))
        (cut_at-pair k v (h.0).0)
      ∙ add_attributes-text p ps ((k ∷ [], v) ∷ out) h.1)

-- Attributes with names of one byte and values without commas are read back.
pub parse_attributes-text :
    (p : ℕ × Bytes) (ps : List (ℕ × Bytes))
    → All IsAttribute (p ∷ ps)
    → parse_attributes (text p ps) ≡ collected (p ∷ ps) []
unfolding parse_attributes
parse_attributes-text p ps h = add_attributes-text p ps [] h
