-- ===== src/Tests/Running.antt =====
-- The gateway's life cycle, the command and the HTTP director at concrete inputs.
use mathlib.Core.List.{Permᴰ}
use credential_gateway.Common.{
  ◌+◌, ltb, ◌≡◌, ◌≢◌, ◌↔◌, refl, Bytes, Bool, true, false, List, [], ◌∷◌, map, none, some, All,
  if◌then◌else◌,
}
use credential_gateway.Common.Texts.{codes, equal}
use credential_gateway.Config.Validate.Sections.{NotIn}
use credential_gateway.Config.Acl.{little}
use credential_gateway.Config.Acl.Access.{file}
use credential_gateway.Config.Load.{FileSystem}
use credential_gateway.Gateway.{new, Sockets, Active, start_all, stop_all}
use credential_gateway.Gateway.Stopping.{stop_all-Perm_start_all}
use credential_gateway.Command.{Flags, run}
use credential_gateway.Command.Runs.{CanServe, run_serves_iff}
use credential_gateway.Http.{Outbound, values, director}
use credential_gateway.Http.Headers.{keys, director_headers}
use credential_gateway.Tests.Serving.{config, decode, text}

abbrev sockets : Sockets
sockets = record { available = λ a. true; clashes = equal; bound = codes "127.0.0.1:22" ∷ [] }

abbrev parses : Bytes → Bool
parses bs = true

-- The second listener stops first.
abbrev backwards : List Active → List Active
backwards (a ∷ b ∷ as_) = b ∷ a ∷ as_
backwards as_ = as_

is_backwards :
    Permᴰ
      (start_all parses (new config) sockets).1.0
      (backwards (start_all parses (new config) sockets).1.0)
unfolding start_all new equal
is_backwards = Permᴰ.swap refl refl

stop_all-Perm_start_all_example :
    stop_all
      (backwards (start_all parses (new config) sockets).1.0)
      (start_all parses (new config) sockets).1.1
    ≡ sockets
stop_all-Perm_start_all_example =
    stop_all-Perm_start_all parses (new config) sockets
      (backwards (start_all parses (new config) sockets).1.0) is_backwards

abbrev file_system : FileSystem
file_system = record {
  exists = λ p. equal p (codes "/etc/credential-gateway/config.yaml");
  info = λ p. file little 0o600 none;
  content = λ p. some text;
}

abbrev flags : Flags
flags = record {
  config = [];
  validate = false;
  version = false;
  log_level = [];
  env_level = codes "DEBUG";
}

abbrev lower : Bytes → Bytes
lower = map (λ b. if ltb b 97 then b + 32 else b)

run_serves_iff_example :
    ((t : Sockets) × ((run lower decode parses backwards flags file_system
          (codes "/root")
          sockets).serving
        ≡ some t))
    ↔ CanServe lower decode parses backwards file_system (codes "/root") sockets flags
run_serves_iff_example =
    run_serves_iff lower decode parses backwards file_system (codes "/root") sockets flags refl refl

abbrev incoming : Outbound
incoming = record {
  host = codes "localhost";
  header =
      (codes "Authorization", codes "guess" ∷ codes "again" ∷ [])
      ∷ (codes "Accept", codes "*/*" ∷ [])
      ∷ [];
}

abbrev secrets : List (Bytes × Bytes)
secrets = (codes "Authorization", codes "Bearer secret") ∷ (codes "X-Key", codes "1") ∷ []

abbrev itself : {A : Type 0} → A → A
itself a = a

apart : codes "Authorization" ≢ codes "X-Key"
apart e = cc

director_headers_example :
    ((director itself itself (codes "api.example") secrets incoming).host ≡ codes "api.example")
    × All
        (λ e.
          values (e.0) (director itself itself (codes "api.example") secrets incoming).header
          ≡ some (e.1 ∷ []))
        secrets
    × ((a : Bytes)
        → NotIn a (keys itself secrets)
        → values a (director itself itself (codes "api.example") secrets incoming).header
          ≡ values a incoming.header)
director_headers_example =
    director_headers itself itself (codes "api.example") secrets incoming ((apart, tt), (tt, tt))
