-- ===== src/Gateway.antt =====
-- internal/gateway/gateway.go: the listeners of a configuration, and how they start and stop.
pub mod Starting
pub mod Stopping
pub mod Connections
use credential_gateway.Common.{
  ℕ, Bytes, Bool, true, false, not, ◌&&◌, List, [], ◌∷◌, ◌++◌, map, Option, none, some,
  if◌then◌else◌,
}
use credential_gateway.Common.Texts.{codes, equal}
use credential_gateway.Config.Types.{
  HttpService, MysqlService, RedisService, PostgresService, OracleService, Config,
}

pub data Proxy : Type 0 where
  http : HttpService → Proxy
  mysql : MysqlService → Proxy
  redis : RedisService → Proxy
  postgres : PostgresService → Proxy
  oracle : OracleService → Proxy

pub record NamedListener : Type 0 where
  pub name : Bytes
  pub proxy : Proxy

abbrev pub address : Proxy → Bytes
address (http h) = h.listen
address (mysql m) = m.listen
address (redis r) = r.listen
address (postgres p) = p.listen
address (oracle o) = o.listen

-- `New`: one loop for each section.
unfoldable pub new : Config → List NamedListener
new cfg =
    map (λ h. record { name = codes "http:" ++ HttpService.listen h; proxy = http h }) cfg.http
    ++ (map (λ m. record { name = codes "mysql:" ++ MysqlService.listen m; proxy = mysql m })
          cfg.mysql
        ++ (map (λ r. record { name = codes "redis:" ++ RedisService.listen r; proxy = redis r })
              cfg.redis
            ++ (map
                  (λ p. record {
                    name = codes "postgres:" ++ PostgresService.listen p;
                    proxy = postgres p;
                  })
                  cfg.postgres
                ++ map
                    (λ o. record {
                      name = codes "oracle:" ++ OracleService.listen o;
                      proxy = oracle o;
                    })
                    cfg.oracle)))

-- The system's sockets: which addresses it lets the process bind, and which are bound. `clashes`
-- says whether the first address cannot be bound while the second is: it is for the system to
-- decide, which finds that `:3306` and `0.0.0.0:3306` clash, and that port 0 never does.
pub record Sockets : Type 0 where
  pub available : Bytes → Bool
  pub clashes : Bytes → Bytes → Bool
  pub bound : List Bytes

abbrev pub is_bound : (Bytes → Bytes → Bool) → Bytes → List Bytes → Bool
is_bound clashes a [] = false
is_bound clashes a (b ∷ bs) = if clashes a b then true else is_bound clashes a bs

-- One socket of the address less.
abbrev pub without : Bytes → List Bytes → List Bytes
without a [] = []
without a (b ∷ bs) = if equal a b then bs else b ∷ without a bs

pub data StartFault : Type 0 where
  bad_upstream listen_failed : Bytes → StartFault

-- `net.Listen("tcp", a)`, and `Close` of the listener that it gives.
abbrev pub listen : Bytes → Sockets → Option StartFault × Sockets
listen a s =
    if s.available a && not (is_bound s.clashes a s.bound)
    then (none, record s { bound = a ∷ s.bound })
    else (some (listen_failed a), s)

abbrev pub close : Bytes → Sockets → Sockets
close a s = record s { bound = without a s.bound }

-- A listener and whether it has a socket: `p.listener`, or `p.server`, is not nil.
pub record Active : Type 0 where
  pub named : NamedListener
  pub listening : Bool

abbrev pub active : NamedListener → Active
active n = record { named = n; listening = true }

abbrev pub idle : NamedListener → Active
idle n = record { named = n; listening = false }

abbrev pub Started : Type 0
Started = Option StartFault × (List Active × Sockets)

-- `if err := nl.l.Start(); err != nil { return err }`: the listeners behind stay as they are.
abbrev pub started :
    NamedListener → List NamedListener → Option StartFault × Sockets → (Sockets → Started) → Started
started n ns (some e, s) next = (some e, (map idle (n ∷ ns), s))
started n ns (none, s) next = let r = next s in (r.0, (active n ∷ r.1.0, r.1.1))

-- `url_parses` says which upstreams `url.Parse` accepts.
module _ (url_parses : Bytes → Bool) where
  abbrev pub has_upstream : Proxy → Bool
  has_upstream (http h) = url_parses h.upstream
  has_upstream (mysql m) = true
  has_upstream (redis r) = true
  has_upstream (postgres p) = true
  has_upstream (oracle o) = true

  -- `Start` of a proxy: that of HTTP parses the upstream first.
  unfoldable pub start_one : Proxy → Sockets → Option StartFault × Sockets
  start_one p s =
      if has_upstream p then listen (address p) s else (some (bad_upstream (address p)), s)

  -- `(*Gateway).Start`.
  unfoldable pub start_all : List NamedListener → Sockets → Started
  unfolding start_one
  start_all [] s = (none, ([], s))
  start_all (n ∷ ns) s = started n ns (start_one (n.proxy) s) (λ s'. start_all ns s')

-- `Stop` of a proxy.
unfoldable pub stop_one : Active → Sockets → Sockets
stop_one a s = if a.listening then close (address (a.named.proxy)) s else s

-- `(*Gateway).Stop`: one goroutine for each listener, here in the order in which they get to run.
unfoldable pub stop_all : List Active → Sockets → Sockets
unfolding stop_one
stop_all [] s = s
stop_all (a ∷ as_) s = stop_all as_ (stop_one a s)
