-- ===== src/Config/Types.antt =====
-- internal/config/config.go: the services of a configuration, and what can be wrong with it.
use credential_gateway.Common.{ℕ, ◌≡◌, refl, Bytes, List, ◌++◌, map}

pub record HttpService : Type 0 where
  pub name : Bytes
  pub listen : Bytes
  pub upstream : Bytes
  pub headers : List (Bytes × Bytes)

pub record MysqlService : Type 0 where
  pub listen : Bytes
  pub upstream : Bytes
  pub user : Bytes
  pub password : Bytes
  pub database : Bytes

pub record RedisService : Type 0 where
  pub listen : Bytes
  pub upstream : Bytes
  pub password : Bytes

pub record PostgresService : Type 0 where
  pub listen : Bytes
  pub upstream : Bytes
  pub user : Bytes
  pub password : Bytes
  pub database : Bytes

pub record OracleService : Type 0 where
  pub listen : Bytes
  pub upstream : Bytes
  pub user : Bytes
  pub password : Bytes
  pub service : Bytes

pub record Config : Type 0 where
  pub http : List HttpService
  pub mysql : List MysqlService
  pub redis : List RedisService
  pub postgres : List PostgresService
  pub oracle : List OracleService

pub data Section : Type 0 where
  http_section mysql_section redis_section postgres_section oracle_section : Section

-- `http[0]`, `mysql[2]` and so on.
abbrev pub Label : Type 0
Label = Section × ℕ

pub data Field : Type 0 where
  listen_field upstream_field headers_field user_field password_field service_field : Field

-- Who has access to the file beside its owner and named users.
pub data Offender : Type 0 where
  owning_group named_group other : Offender

-- The errors of the package; the messages that format them are not modelled.
pub data Error : Type 0 where
  missing : Label → Field → Error
  duplicate : Label → Bytes → Label → Error
  no_listeners : Error
  acl_too_short acl_malformed : ℕ → Error
  acl_version : ℕ → Error
  -- an error number of the system
  system : ℕ → Error
  acl_grants : Offender → Error
  unsafe_mode : ℕ → Error
  not_found unreadable undecodable : Error

pub data Result {ℓ} (A : Type ℓ) : Type ℓ where
  ok : A → Result A
  err : Error → Result A

infixl 5 ◌>>=◌ ◌>>◌
abbrev pub ◌>>=◌ {ℓ κ} : {A : Type ℓ} {B : Type κ} → Result A → (A → Result B) → Result B
ok a >>= f = f a
err e >>= f = err e

abbrev pub ◌>>◌ {ℓ κ} : {A : Type ℓ} {B : Type κ} → Result A → Result B → Result B
m >> k = m >>= λ _. k

-- The addresses of all listeners, in the order of validation.
abbrev pub listens : Config → List Bytes
listens c =
    map (λ h. HttpService.listen h) c.http
    ++ (map (λ m. MysqlService.listen m) c.mysql
        ++ (map (λ r. RedisService.listen r) c.redis
            ++ (map (λ p. PostgresService.listen p) c.postgres
                ++ map (λ o. OracleService.listen o) c.oracle)))

pub >>=-eq-ok {ℓ κ} :
    {A : Type ℓ} {B : Type κ} (m : Result A) (f : A → Result B) (b : B)
    → (m >>= f) ≡ ok b
    → (a : A) × (m ≡ ok a) × (f a ≡ ok b)
>>=-eq-ok (ok a) f b h = (a, refl, h)
>>=-eq-ok (err e) f b h = cc
