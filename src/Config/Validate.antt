-- ===== src/Config/Validate.antt =====
-- internal/config/config.go: `(*Config).Validate`.
pub mod Sections
pub mod Exact
use credential_gateway.Common.{
  ℕ, suc, ◌+◌, Bytes, Bool, true, false, List, [], ◌∷◌, ◌++◌, length, Option, none, some, ◌==◌,
  if◌then◌else◌,
}
use credential_gateway.Common.Texts.{is_empty, equal}
use credential_gateway.Config.Types.{
  HttpService, MysqlService, RedisService, PostgresService, OracleService, Config, Section,
  http_section, mysql_section, redis_section, postgres_section, oracle_section, Label, Field,
  listen_field, upstream_field, headers_field, user_field, password_field, service_field, Error,
  missing, duplicate, no_listeners, Result, ok, err, ◌>>=◌, ◌>>◌,
}

-- `seen`, a map from addresses to the labels that use them.
abbrev pub Seen : Type 0
Seen = List (Bytes × Label)

unfoldable pub lookup : Bytes → Seen → Option Label
lookup a [] = none
lookup a ((b, l) ∷ seen) = if equal a b then some l else lookup a seen

-- The required fields of a service, in the order in which they are tested, each with whether it
-- is empty.
abbrev pub Requirements : Type 0
Requirements = List (Bool × Field)

unfoldable pub first_missing : Label → Requirements → Result (Unit {0})
first_missing l [] = ok tt
first_missing l ((true, f) ∷ rest) = err (missing l f)
first_missing l ((false, f) ∷ rest) = first_missing l rest

-- `if prev, dup := seen[listen]; dup { … }; seen[listen] = label`.
unfoldable pub claim : Label → Bytes → Seen → Result Seen
claim l a seen = elim (lookup a seen) [
  | some prev ↦ err (duplicate l a prev)
  | none ↦ ok (seen ++ ((a, l) ∷ []))
]

-- The loop over the services of one section, from index `i` on.
unfoldable pub check_services :
    {A : Type 0} → (A → Requirements) → (A → Bytes) → Section → ℕ → List A → Seen → Result Seen
check_services required listen section i [] seen = ok seen
check_services required listen section i (x ∷ xs) seen = do
  first_missing (section, i) (required x)
  seen' ← claim (section, i) (listen x) seen
  check_services required listen section (suc i) xs seen'

abbrev pub http_required : HttpService → Requirements
http_required h =
    (is_empty h.listen, listen_field)
    ∷ (is_empty h.upstream, upstream_field)
    ∷ (is_empty h.headers, headers_field)
    ∷ []

abbrev pub mysql_required : MysqlService → Requirements
mysql_required m =
    (is_empty m.listen, listen_field)
    ∷ (is_empty m.upstream, upstream_field)
    ∷ (is_empty m.user, user_field)
    ∷ (is_empty m.password, password_field)
    ∷ []

abbrev pub redis_required : RedisService → Requirements
redis_required r = (is_empty r.listen, listen_field) ∷ (is_empty r.upstream, upstream_field) ∷ []

abbrev pub postgres_required : PostgresService → Requirements
postgres_required p =
    (is_empty p.listen, listen_field)
    ∷ (is_empty p.upstream, upstream_field)
    ∷ (is_empty p.user, user_field)
    ∷ (is_empty p.password, password_field)
    ∷ []

abbrev pub oracle_required : OracleService → Requirements
oracle_required o =
    (is_empty o.listen, listen_field)
    ∷ (is_empty o.upstream, upstream_field)
    ∷ (is_empty o.user, user_field)
    ∷ (is_empty o.password, password_field)
    ∷ (is_empty o.service, service_field)
    ∷ []

abbrev pub listener_count : Config → ℕ
listener_count c =
    length c.http + length c.mysql + length c.redis + length c.postgres + length c.oracle

unfoldable pub validate : Config → Result (Unit {0})
validate c = do
  a ← check_services http_required (λ h. h.listen) http_section 0 c.http []
  b ← check_services mysql_required (λ m. m.listen) mysql_section 0 c.mysql a
  d ← check_services redis_required (λ r. r.listen) redis_section 0 c.redis b
  e ← check_services postgres_required (λ p. p.listen) postgres_section 0 c.postgres d
  check_services oracle_required (λ o. o.listen) oracle_section 0 c.oracle e
  if listener_count c == 0 then err no_listeners else ok tt
