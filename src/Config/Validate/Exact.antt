-- ===== src/Config/Validate/Exact.antt =====
-- Which configurations `Validate` accepts.
use credential_gateway.Config.Validate.Sections.{
  Distinct, keys, check_services_sound, check_services_complete,
}
use credential_gateway.Common.{
  ℕ, ◌≡◌, ◌≢◌, ◌↔◌, sym, subst, Bytes, Bool, false, List, [], ◌∷◌, ◌++◌, map, ◌==◌, arith, All,
  append_assoc, append-nil, if◌then◌else◌,
}
use credential_gateway.Common.Texts.{is_empty}
use credential_gateway.Config.Types.{
  HttpService, MysqlService, RedisService, PostgresService, OracleService, Config, http_section,
  mysql_section, redis_section, postgres_section, oracle_section, Result, ok, err, no_listeners,
  listens, >>=-eq-ok,
}
use credential_gateway.Config.Validate.{
  http_required, mysql_required, redis_required, postgres_required, oracle_required, listener_count,
  validate,
}

five_lists :
    (a b c d e k1 k2 k3 k4 k5 : List Bytes)
    → k1 ≡ a
    → k2 ≡ k1 ++ b
    → k3 ≡ k2 ++ c
    → k4 ≡ k3 ++ d
    → k5 ≡ k4 ++ e
    → k5 ≡ a ++ (b ++ (c ++ (d ++ e)))
five_lists a b c d e k1 k2 k3 k4 k5 p1 p2 p3 p4 p5 = rw (p5, p4, p3, p2, p1) (simp append_assoc)

abbrev pub NoneTrue : List Bool → Type 0
NoneTrue [] = Unit {0}
NoneTrue (b ∷ bs) = (b ≡ false) × NoneTrue bs

-- No service has an empty field of those required of it, no two listen on one address, and there
-- is one at least.
pub record IsValid (c : Config) : Type 0 where
  pub http_given :
      All
        (λ (h : HttpService).
          NoneTrue (is_empty h.listen ∷ is_empty h.upstream ∷ is_empty h.headers ∷ []))
        c.http
  pub mysql_given :
      All
        (λ (m : MysqlService).
          NoneTrue
            (is_empty m.listen ∷ is_empty m.upstream ∷ is_empty m.user ∷ is_empty m.password ∷ []))
        c.mysql
  pub redis_given :
      All (λ (r : RedisService). NoneTrue (is_empty r.listen ∷ is_empty r.upstream ∷ [])) c.redis
  pub postgres_given :
      All
        (λ (p : PostgresService).
          NoneTrue
            (is_empty p.listen ∷ is_empty p.upstream ∷ is_empty p.user ∷ is_empty p.password ∷ []))
        c.postgres
  pub oracle_given :
      All
        (λ (o : OracleService). NoneTrue (
          is_empty o.listen
          ∷ is_empty o.upstream
          ∷ is_empty o.user
          ∷ is_empty o.password
          ∷ is_empty o.service
          ∷ []))
        c.oracle
  pub distinct : Distinct (listens c)
  pub some_listener : listener_count c ≢ 0

validate_sound : (c : Config) → validate c ≡ ok tt → IsValid c
unfolding validate
validate_sound c e =
    let (s1, e1, r1) = >>=-eq-ok _ _ tt e in
    let (s2, e2, r2) = >>=-eq-ok _ _ tt r1 in
    let (s3, e3, r3) = >>=-eq-ok _ _ tt r2 in
    let (s4, e4, r4) = >>=-eq-ok _ _ tt r3 in
    let (s5, e5, r5) = >>=-eq-ok _ _ tt r4 in
    let (g1, k1, d1) = check_services_sound _ _ _ c.http 0 [] s1 e1 tt in
    let (g2, k2, d2) = check_services_sound _ _ _ c.mysql 0 s1 s2 e2 d1 in
    let (g3, k3, d3) = check_services_sound _ _ _ c.redis 0 s2 s3 e3 d2 in
    let (g4, k4, d4) = check_services_sound _ _ _ c.postgres 0 s3 s4 e4 d3 in
    let (g5, k5, d5) = check_services_sound _ _ _ c.oracle 0 s4 s5 e5 d4 in
    record {
      http_given = g1;
      mysql_given = g2;
      redis_given = g3;
      postgres_given = g4;
      oracle_given = g5;
      distinct = subst Distinct (five_lists _ _ _ _ _ _ _ _ _ _ k1 k2 k3 k4 k5) d5;
      some_listener = ground arith;
    }

abbrev count_result : ℕ → Result (Unit {0})
count_result n = if n == 0 then err no_listeners else ok tt

count_test : (n : ℕ) → n ≢ 0 → count_result n ≡ ok tt
count_test n h = ground arith

validate_complete : (c : Config) → IsValid c → validate c ≡ ok tt
unfolding validate
validate_complete c v =
    let r5 = map (λ o. OracleService.listen o) c.oracle in
    let r4 = map (λ p. PostgresService.listen p) c.postgres ++ r5 in
    let r3 = map (λ r. RedisService.listen r) c.redis ++ r4 in
    let r2 = map (λ m. MysqlService.listen m) c.mysql ++ r3 in
    let (s1, e1, d1) =
      check_services_complete http_required (λ h. h.listen) http_section c.http 0 [] r2 v.http_given
        v.distinct in
    let (s2, e2, d2) =
      check_services_complete mysql_required (λ m. m.listen) mysql_section c.mysql 0 s1 r3
        v.mysql_given d1 in
    let (s3, e3, d3) =
      check_services_complete redis_required (λ r. r.listen) redis_section c.redis 0 s2 r4
        v.redis_given d2 in
    let (s4, e4, d4) =
      check_services_complete postgres_required (λ p. p.listen) postgres_section c.postgres 0 s3 r5
        v.postgres_given d3 in
    let d4' = subst (λ r. Distinct (keys s4 ++ r)) (sym (append-nil r5)) d4 in
    let (s5, e5, d5) =
      check_services_complete oracle_required (λ o. o.listen) oracle_section c.oracle 0 s4 []
        v.oracle_given d4' in
    rw e1 (rw e2 (rw e3 (rw e4 (rw e5 (count_test (listener_count c) v.some_listener)))))

-- `Validate` accepts a configuration exactly if every service has all its required fields, no
-- two services of any section listen on the same address, and there is at least one service.
pub validate_iff : (c : Config) → (validate c ≡ ok tt) ↔ IsValid c
validate_iff c = (validate_sound c, validate_complete c)
