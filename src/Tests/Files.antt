-- ===== src/Tests/Files.antt =====
-- The configuration file at concrete inputs.
use credential_gateway.Common.{◌≡◌, ◌↔◌, Bytes, List, [], ◌∷◌, Option, none, some, arith}
use credential_gateway.Common.Texts.{codes, equal}
use credential_gateway.Config.Types.{Config, ok}
use credential_gateway.Config.Validate.{validate}
use credential_gateway.Config.Validate.Exact.{IsValid, validate_iff}
use credential_gateway.Config.Acl.{little, check_permissions}
use credential_gateway.Config.Acl.Access.{Entry, AreEntries, IsPrivate, file, check_permissions_iff}
use credential_gateway.Config.Load.{FileSystem, load}
use credential_gateway.Config.Load.Loads.{Loads, load_iff}

abbrev config : Config
config = record {
  http = [];
  mysql =
      record {
        listen = codes "127.0.0.1:3306";
        upstream = codes "db:3306";
        user = codes "app";
        password = codes "secret";
        database = [];
      }
      ∷ [];
  redis =
      record { listen = codes "127.0.0.1:6379"; upstream = codes "cache:6379"; password = [] } ∷ [];
  postgres = [];
  oracle = [];
}

validate_iff_example : (validate config ≡ ok tt) ↔ IsValid config
validate_iff_example = validate_iff config

abbrev entries : List Entry
entries =
    record { tag = 0x01; perm = 6; id = (0, 0, 0, 0) }
    ∷ record { tag = 0x02; perm = 4; id = (1, 0, 0, 0) }
    ∷ record { tag = 0x04; perm = 0; id = (0, 0, 0, 0) }
    ∷ record { tag = 0x10; perm = 4; id = (0, 0, 0, 0) }
    ∷ record { tag = 0x20; perm = 0; id = (0, 0, 0, 0) }
    ∷ []

entries-AreEntries : AreEntries (some entries)
entries-AreEntries = (
  record { tag_fits = omega arith; perm_fits = omega arith },
  (
    record { tag_fits = omega arith; perm_fits = omega arith },
    (
      record { tag_fits = omega arith; perm_fits = omega arith },
      (
        record { tag_fits = omega arith; perm_fits = omega arith },
        (record { tag_fits = omega arith; perm_fits = omega arith }, tt),
      ),
    ),
  ),
)

check_permissions_iff_example :
    (check_permissions (file little 0o640 (some entries)) ≡ ok tt) ↔ IsPrivate 0o640 (some entries)
check_permissions_iff_example = check_permissions_iff little 0o640 (some entries) entries-AreEntries

abbrev file_system : FileSystem
file_system = record {
  exists = λ p. equal p (codes "/etc/credential-gateway/config.yaml");
  info = λ p. file little 0o600 none;
  content = λ p. some (codes "mysql: [...]");
}

abbrev decode : Bytes → Option Config
decode bs = some config

load_iff_example :
    (load decode file_system (codes "/root") [] ≡ ok config)
    ↔ Loads decode file_system (codes "/root") [] config
load_iff_example = load_iff decode file_system (codes "/root") [] config
