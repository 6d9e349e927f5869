-- ===== src/Postgres/Startup/Params.antt =====
-- What the parameters of a startup packet parse to.
use credential_gateway.Common.{
  ℕ, zero, suc, ◌+◌, ◌≤◌, ◌<◌, ◌≡◌, ◌≢◌, ◌⊎◌, refl, ap, ◌∙◌, Bytes, true, false, [], ◌∷◌, ◌++◌,
  length, drop, leb, leb→le, ◌==◌, Option, none, some, arith, append_assoc, length-append,
  length-drop, take-append_length, drop-append, All, inl, inr, Bool-cases,
}
use credential_gateway.Common.Texts.{codes, is_empty, nul_index, nul_index-append, HasNoNul}
use credential_gateway.Common.Words.{be32}
use credential_gateway.Net.Exit.{Fault, Exit, done, failed, panicked, ◌>>=◌}
use credential_gateway.Postgres.Startup.{
  terminated, build_startup, cut_string, Params, params_loop, parse_params,
}

pub cut_string-terminated :
    (s rest : Bytes) → HasNoNul s → cut_string (s ++ (0 ∷ rest)) ≡ done (s, rest)
unfolding cut_string
cut_string-terminated s rest h =
    let data_ = s ++ (0 ∷ rest) in
    let enough : leb (length s + 1) (length data_) ≡ true =
      ground (arith, length-append s (0 ∷ rest)) in
    rw
      (
        nul_index-append s rest h,
        enough,
        take-append_length (length s) s (0 ∷ rest) refl,
        drop-append s (0 ∷ rest) (length s + 1) 1 refl,
      )
      refl

-- The parameters on the wire, with the end behind them.
abbrev pub wire : Params → Bytes → Bytes
wire [] rest = 0 ∷ rest
wire ((k, v) ∷ ps) rest = k ++ (0 ∷ (v ++ (0 ∷ wire ps rest)))

-- A key that is not empty, and no NUL in the key or the value.
abbrev pub IsParam : Bytes × Bytes → Type 0
IsParam (k, v) = (is_empty k ≡ false) × HasNoNul k × HasNoNul v

abbrev reversed_onto : Params → Params → Params
reversed_onto [] acc = acc
reversed_onto (p ∷ ps) acc = reversed_onto ps (p ∷ acc)

pub key_test :
    (k rest : Bytes) → is_empty k ≡ false → HasNoNul k → (nul_index (k ++ (0 ∷ rest)) == 0) ≡ false
key_test [] rest e h = cc
key_test (b ∷ k) rest e h = rw (nul_index-append (b ∷ k) rest h) (ground arith)

pub nonempty_test : (k rest : Bytes) → is_empty (k ++ (0 ∷ rest)) ≡ false
nonempty_test [] rest = refl
nonempty_test (b ∷ k) rest = refl

pub nul_first : (rest : Bytes) → nul_index (0 ∷ rest) ≡ 0
unfolding nul_index
nul_first rest = refl

params_loop-wire :
    (ps : Params) (f : ℕ) (rest : Bytes) (acc : Params)
    → All IsParam ps
    → length ps < f
    → params_loop f (wire ps rest) acc ≡ done (reversed_onto ps acc)
unfolding params_loop
params_loop-wire ps zero rest acc h l = absurd (omega arith)
params_loop-wire [] (suc f) rest acc h l = rw (nul_first rest) refl
params_loop-wire ((k, v) ∷ ps) (suc f) rest acc h l =
    let values = v ++ (0 ∷ wire ps rest) in
    rw
      (
        nonempty_test k values,
        key_test k values h.0.0 h.0.1,
        cut_string-terminated k values h.0.1,
        cut_string-terminated v (wire ps rest) h.0.2,
      )
      (params_loop-wire ps f rest ((k, v) ∷ acc) h.1 (omega arith))

length-wire : (ps : Params) (rest : Bytes) → All IsParam ps → length ps < length (wire ps rest)
length-wire [] rest h = omega arith
length-wire ((k, v) ∷ ps) rest h =
    let values = v ++ (0 ∷ wire ps rest) in
    omega (
      arith,
      length-wire ps rest h.1,
      length-append k (0 ∷ values),
      length-append v (0 ∷ wire ps rest),
    )

-- Parameters with keys that are not empty, and without NULs, are read back, the last first,
-- whatever stands behind their end.
pub parse_params-wire :
    (ps : Params) (rest : Bytes)
    → All IsParam ps
    → parse_params (wire ps rest) ≡ done (reversed_onto ps [])
unfolding parse_params
parse_params-wire ps rest h =
    params_loop-wire ps (length (wire ps rest)) rest [] h (length-wire ps rest h)

cut_string-shorter :
    (data_ k rest : Bytes) → cut_string data_ ≡ done (k, rest) → length rest < length data_
unfolding cut_string
cut_string-shorter data_ k rest e = elim (Bool-cases (leb (nul_index data_ + 1) (length data_))) [
  | inl p ↦
      let q : drop (nul_index data_ + 1) data_ ≡ rest = cc (rw p at e) in
      omega (arith, leb→le _ _ p, length-drop (nul_index data_ + 1) data_, ap length q)
  | inr p ↦ cc (rw p at e)
]

cut_string-failed : (data_ : Bytes) (e : Fault) → cut_string data_ ≢ failed e
unfolding cut_string
cut_string-failed data_ e h = elim (Bool-cases (leb (nul_index data_ + 1) (length data_))) [
  | inl p ↦ cc (rw p at h)
  | inr p ↦ cc (rw p at h)
]

-- Where a chain fails, one of its calls did.
bind_failed :
    {A B : Type 0} (m : Exit A) (f : A → Exit B) (e : Fault)
    → (m >>= f) ≡ failed e
    → (m ≡ failed e) ⊎ ((a : A) × (m ≡ done a) × (f a ≡ failed e))
bind_failed (done a) f e h = inr (a, refl, h)
bind_failed (failed x) f e h = inl cc
bind_failed panicked f e h = cc

pub cut_then :
    {B : Type 0} (data_ : Bytes) (f : Bytes × Bytes → Exit B) (e : Fault)
    → (cut_string data_ >>= f) ≡ failed e
    → (p : Bytes × Bytes) × (length (p.1) < length data_) × (f p ≡ failed e)
cut_then data_ f e h = elim (bind_failed (cut_string data_) f e h) [
  | inl g ↦ absurd (cut_string-failed data_ e g)
  | inr (p, g, k) ↦ (p, cut_string-shorter data_ (p.0) (p.1) g, k)
]

params_loop-failed :
    (f : ℕ) (data_ : Bytes) (acc : Params) (e : Fault)
    → length data_ ≤ f
    → params_loop f data_ acc ≢ failed e
unfolding params_loop
params_loop-failed zero [] acc e l h = cc
params_loop-failed zero (b ∷ bs) acc e l h = absurd (omega arith)
params_loop-failed (suc f) [] acc e l h = cc
params_loop-failed (suc f) (b ∷ bs) acc e l h = elim (Bool-cases (nul_index (b ∷ bs) == 0)) [
  | inl p ↦ cc (rw p at h)
  | inr p ↦
      let (key, shorter, h1) = cut_then (b ∷ bs) _ e (rw p at h) in
      let (val, shorter', h2) = cut_then (key.1) _ e h1 in
      params_loop-failed f (val.1) _ e (omega arith) h2
]

-- `pgParseParams` never runs out of rounds, and it returns no error: it returns parameters, or
-- it panics.
pub parse_params-failed : (data_ : Bytes) (e : Fault) → parse_params data_ ≢ failed e
unfolding parse_params
parse_params-failed data_ e = params_loop-failed (length data_) data_ [] e (omega arith)

nul_index_all : (k : Bytes) → HasNoNul k → nul_index k ≡ length k
unfolding nul_index
nul_index_all [] h = refl
nul_index_all (b ∷ k) h = ground (arith, nul_index_all k h.1)

pub cut_string-panicked : (k : Bytes) → HasNoNul k → cut_string k ≡ panicked
unfolding cut_string
cut_string-panicked k h = rw (nul_index_all k h) (ground arith)

-- Parameters on the wire, without an end.
abbrev pub pairs : Params → Bytes → Bytes
pairs [] rest = rest
pairs ((k, v) ∷ ps) rest = k ++ (0 ∷ (v ++ (0 ∷ pairs ps rest)))

-- A key with no NUL behind it, or a whole key and a value with no NUL behind it.
abbrev pub unfinished : Bytes → Option Bytes → Bytes
unfinished k none = k
unfinished k (some v) = k ++ (0 ∷ v)

abbrev pub MayHaveNoNul : Option Bytes → Type 0
MayHaveNoNul none = Unit {0}
MayHaveNoNul (some v) = HasNoNul v

unterminated_test : (b : ℕ) (k : Bytes) → HasNoNul (b ∷ k) → (nul_index (b ∷ k) == 0) ≡ false
unterminated_test b k h = rw (nul_index_all (b ∷ k) h) (ground arith)

-- A round for each parameter, and one for what is unfinished.
params_loop-panicked :
    (ps : Params) (k : Bytes) (value : Option Bytes) (f : ℕ) (acc : Params)
    → All IsParam ps
    → is_empty k ≡ false
    → HasNoNul k
    → MayHaveNoNul value
    → length ps < f
    → params_loop f (pairs ps (unfinished k value)) acc ≡ panicked
unfolding params_loop
params_loop-panicked ps k value zero acc h e n m l = absurd (omega arith)
params_loop-panicked [] [] value (suc f) acc h e n m l = cc
params_loop-panicked [] (b ∷ k) none (suc f) acc h e n m l =
    rw (unterminated_test b k n, cut_string-panicked (b ∷ k) n) refl
params_loop-panicked [] (b ∷ k) (some v) (suc f) acc h e n m l =
    rw (key_test (b ∷ k) v e n, cut_string-terminated (b ∷ k) v n, cut_string-panicked v m) refl
params_loop-panicked ((key, val) ∷ ps) k value (suc f) acc h e n m l =
    let later = pairs ps (unfinished k value) in
    let values = val ++ (0 ∷ later) in
    rw
      (
        nonempty_test key values,
        key_test key values h.0.0 h.0.1,
        cut_string-terminated key values h.0.1,
        cut_string-terminated val later h.0.2,
      )
      (params_loop-panicked ps k value f ((key, val) ∷ acc) h.1 e n m (omega (arith, l)))

length-unfinished :
    (k : Bytes) (value : Option Bytes) → is_empty k ≡ false → 0 < length (unfinished k value)
length-unfinished [] value e = cc
length-unfinished (b ∷ k) none e = omega arith
length-unfinished (b ∷ k) (some v) e = omega arith

length-pairs : (ps : Params) (rest : Bytes) → 0 < length rest → length ps < length (pairs ps rest)
length-pairs [] rest h = h
length-pairs ((k, v) ∷ ps) rest h =
    let values = v ++ (0 ∷ pairs ps rest) in
    omega (
      arith,
      length-pairs ps rest h,
      length-append k (0 ∷ values),
      length-append v (0 ∷ pairs ps rest),
    )

-- Behind any number of whole parameters, a key that is not empty and has no NUL behind it, or
-- such a key with its NUL and a value that has no NUL behind it, makes the function panic.
pub parse_params-panicked :
    (ps : Params) (k : Bytes) (value : Option Bytes)
    → All IsParam ps
    → is_empty k ≡ false
    → HasNoNul k
    → MayHaveNoNul value
    → parse_params (pairs ps (unfinished k value)) ≡ panicked
unfolding parse_params
parse_params-panicked ps k value h e n m =
    params_loop-panicked ps k value _ [] h e n m
      (length-pairs ps (unfinished k value) (length-unfinished k value e))

-- The parameters that the gateway's own startup packet carries.
abbrev startup_params : Bytes → Bytes → Params
startup_params user [] = (codes "user", user) ∷ []
startup_params user (d ∷ ds) = (codes "user", user) ∷ (codes "database", d ∷ ds) ∷ []

build_startup-wire :
    (user database : Bytes)
    → build_startup user database ≡ be32 196608 ++ wire (startup_params user database) []
unfolding build_startup
build_startup-wire user [] =
    ap (λ s. be32 196608 ++ (terminated (codes "user") ++ s)) (append_assoc user (0 ∷ []) (0 ∷ []))
build_startup-wire user (d ∷ ds) =
    ap (λ s. be32 196608 ++ (terminated (codes "user") ++ s))
      (append_assoc user (0 ∷ []) _
        ∙ ap (λ s. user ++ (0 ∷ (terminated (codes "database") ++ (d ∷ s))))
            (append_assoc ds (0 ∷ []) (0 ∷ [])))

user_key : HasNoNul (codes "user")
user_key = ground arith

database_key : HasNoNul (codes "database")
database_key = ground arith

startup_params-IsParam :
    (user database : Bytes)
    → HasNoNul user
    → HasNoNul database
    → All IsParam (startup_params user database)
startup_params-IsParam user [] h k = ((refl, user_key, h), tt)
startup_params-IsParam user (d ∷ ds) h k = ((refl, user_key, h), ((refl, database_key, k), tt))

-- What the gateway sends as a startup packet parses, behind the protocol version, to the user
-- and, where there is one, the database.
parse_params-build_startup :
    (user database : Bytes)
    → HasNoNul user
    → HasNoNul database
    → parse_params (drop 4 (build_startup user database))
      ≡ done (reversed_onto (startup_params user database) [])
parse_params-build_startup user database h k =
    ap (λ s. parse_params (drop 4 s)) (build_startup-wire user database)
    ∙ parse_params-wire (startup_params user database) [] (startup_params-IsParam user database h k)
