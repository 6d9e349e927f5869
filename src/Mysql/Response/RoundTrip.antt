-- ===== src/Mysql/Response/RoundTrip.antt =====
-- What a server reads in the login packet that the proxy builds.
use credential_gateway.Common.{
  ℕ, suc, ◌+◌, ◌%◌, ◌<◌, ◌≡◌, refl, bit_and, Bytes, [], ◌∷◌, ◌++◌, length, get_or, take, drop, ◌==◌,
  arith, length-append, append_assoc, take-append_length, drop-append_length, drop-append,
  get_or-append_length, if◌then◌else◌,
}
use credential_gateway.Common.Texts.{nul_index, HasNoNul, nul_index-append}
use credential_gateway.Common.Words.{of_le}
use credential_gateway.Mysql.Response.{
  scramble, response_caps, base_caps, plugin_name, database_at, after_user, parse_database,
  build_response,
}
use credential_gateway.Mysql.Response.Scramble.{length-scramble}

-- A login packet as the protocol lays it out.
pub record Login : Type 0 where
  pub caps : ℕ
  pub user : Bytes
  pub auth : Bytes
  pub database : Bytes
  pub plugin : Bytes

-- The bytes up to the next NUL, and what stands behind it.
until_nul : Bytes → Bytes × Bytes
until_nul bs = (take (nul_index bs) bs, drop (nul_index bs + 1) bs)

read_database : ℕ → Bytes → Bytes × Bytes
read_database caps bs = if bit_and caps 0x00000008 == 0 then ([], bs) else until_nul bs

-- The fields behind the fixed 32 bytes.
read_fields : ℕ → Bytes → Login
read_fields caps bs =
    let (user, behind_user) = until_nul bs in
    let n = get_or behind_user 0 0 in
    let (database, behind) = read_database caps (drop (suc n) behind_user) in
    record {
      caps = caps;
      user = user;
      auth = take n (drop 1 behind_user);
      database = database;
      plugin = (until_nul behind).0;
    }

-- How a server reads a login packet.
unfoldable pub read_login : Bytes → Login
unfolding until_nul read_database read_fields
read_login payload = read_fields (of_le (take 4 payload)) (drop 32 payload)

until_nul-append : (s rest : Bytes) → HasNoNul s → until_nul (s ++ (0 ∷ rest)) ≡ (s, rest)
unfolding until_nul
until_nul-append s rest h = ground (
  arith,
  nul_index-append s rest h,
  take-append_length (length s) s (0 ∷ rest) refl,
  drop-append s (0 ∷ rest) (length s + 1) 1 refl,
)

until_nul-concat : (s rest : Bytes) → HasNoNul s → until_nul ((s ++ (0 ∷ [])) ++ rest) ≡ (s, rest)
until_nul-concat s rest h = rw (append_assoc s (0 ∷ []) rest) (until_nul-append s rest h)

read_fields-append :
    (caps : ℕ) (user auth tail database behind : Bytes)
    → HasNoNul user
    → length auth < 256
    → read_database caps tail ≡ (database, behind)
    → read_fields caps (user ++ (0 ∷ (length auth % 256) ∷ (auth ++ tail))) ≡ record {
      caps = caps;
      user = user;
      auth = auth;
      database = database;
      plugin = (until_nul behind).0;
    }
unfolding read_fields
read_fields-append caps user auth tail database behind hu ha e =
    let n = length auth % 256 in
    let small : n ≡ length auth = omega arith in
    rw (until_nul-append user (n ∷ (auth ++ tail)) hu)
      (rw (drop-append_length n auth tail small) (rw (take-append_length n auth tail small) (rw e)))

plugin_name_text : until_nul (plugin_name ++ (0 ∷ [])) ≡ (plugin_name, [])
unfolding until_nul nul_index
plugin_name_text = refl

-- For a user and a database without NUL, a server reads in the packet that the proxy builds the
-- configured user, the scramble of the configured password, the database, and the plugin.
pub read_login-build_response :
    (user password nonce database : Bytes)
    → HasNoNul user
    → HasNoNul database
    → read_login (build_response user password nonce database) ≡ record {
      caps = response_caps database;
      user = user;
      auth = scramble nonce password;
      database = database;
      plugin = plugin_name;
    }
unfolding read_login build_response nul_index
read_login-build_response user password nonce [] hu hd =
    read_fields-append base_caps user (scramble nonce password) _ [] _ hu
      (length-scramble nonce password) refl
read_login-build_response user password nonce (d ∷ ds) hu hd =
    read_fields-append (response_caps (d ∷ ds)) user (scramble nonce password) _ (d ∷ ds)
      (plugin_name ++ (0 ∷ [])) hu (length-scramble nonce password)
      (until_nul-concat (d ∷ ds) (plugin_name ++ (0 ∷ [])) hd)

database_at-append :
    (xs database rest : Bytes) (pos : ℕ)
    → pos ≡ length xs
    → HasNoNul database
    → database_at (xs ++ (database ++ (0 ∷ rest))) pos ≡ database
unfolding database_at
database_at-append xs database rest pos hp h = ground (
  arith,
  length-append xs (database ++ (0 ∷ rest)),
  length-append database (0 ∷ rest),
  drop-append_length pos xs (database ++ (0 ∷ rest)),
  nul_index-append database rest h,
  take-append_length (length database) database (0 ∷ rest) refl,
)

after_user-append :
    (xs auth database rest : Bytes) (pos : ℕ)
    → pos ≡ length xs
    → HasNoNul database
    → after_user (xs ++ (length auth ∷ (auth ++ (database ++ (0 ∷ rest))))) pos ≡ database
unfolding after_user
after_user-append xs auth database rest pos hp h =
    let named = database ++ (0 ∷ rest) in
    ground (
      arith,
      length-append xs (length auth ∷ (auth ++ named)),
      get_or-append_length xs (length auth) (auth ++ named) pos 0 hp,
      append_assoc xs (length auth ∷ auth) named,
      length-append xs (length auth ∷ auth),
      database_at-append (xs ++ (length auth ∷ auth)) database rest (pos + (1 + length auth)),
    )

-- The packet of a client that asks for a database, behind its 32 fixed bytes.
abbrev pub client_login : Bytes → Bytes → Bytes → Bytes → Bytes → Bytes
client_login fixed user auth database rest =
    fixed ++ (user ++ (0 ∷ length auth ∷ (auth ++ (database ++ (0 ∷ rest)))))

-- From the login packet of a client that sets CLIENT_CONNECT_WITH_DB, the proxy takes the
-- database that the client names; without that flag it takes none, whatever the packet holds.
pub parse_database_exact :
    (fixed user auth database rest : Bytes) (caps : ℕ)
    → length fixed ≡ 32
    → HasNoNul user
    → HasNoNul database
    → parse_database (client_login fixed user auth database rest) caps
      ≡ (if bit_and caps 0x00000008 == 0 then [] else database)
parse_database_exact fixed user auth database rest caps hf hu hd =
    let later = length auth ∷ (auth ++ (database ++ (0 ∷ rest))) in
    unfold parse_database in
    ground (
      arith,
      length-append fixed (user ++ (0 ∷ later)),
      length-append user (0 ∷ later),
      drop-append_length 32 fixed (user ++ (0 ∷ later)),
      nul_index-append user later hu,
      append_assoc fixed (user ++ (0 ∷ [])) later,
      append_assoc user (0 ∷ []) later,
      length-append fixed (user ++ (0 ∷ [])),
      length-append user (0 ∷ []),
      after_user-append (fixed ++ (user ++ (0 ∷ []))) auth database rest (32 + length user + 1),
    )
