-- ===== src/Admin/Command.antt =====
-- cmd/credential-gateway-admin/main.go: the command that runs the admin server.
pub mod Loopback
use credential_gateway.Common.{ℕ, Bytes, Bool, not, if◌then◌else◌}
use credential_gateway.Common.Texts.{codes}
use credential_gateway.Std.Decimal.{ℤ, pos}
use credential_gateway.Admin.Server.{listen_addr}

pub record AdminFlags : Type 0 where
  pub config : Bytes
  pub port : ℤ

-- The values of flags that are not given.
abbrev pub default_flags : AdminFlags
default_flags = record { config = codes "/etc/credential-gateway/config.yaml"; port = pos 8099 }

-- Whether `os.Stat` succeeds on a path, and whether `ListenAndServe` can bind an address.
pub record AdminSystem : Type 0 where
  pub accessible : Bytes → Bool
  pub binds : Bytes → Bool

-- The process ends with a code, or it serves at an address over the file of a path, until a
-- signal.
pub data AdminRun : Type 0 where
  exited : ℕ → AdminRun
  serving : Bytes → Bytes → AdminRun

-- `main`, up to the signal.
unfoldable pub run_admin : AdminFlags → AdminSystem → AdminRun
run_admin flags s =
    if not (s.accessible flags.config)
    then exited 1
    else if s.binds (listen_addr flags.port)
    then serving (listen_addr flags.port) flags.config
    else exited 1

-- The rest of `main`, on SIGINT or SIGTERM: `Shutdown`, whose error is dropped.
abbrev pub interrupt : AdminRun → AdminRun
interrupt (exited code) = exited code
interrupt (serving addr path) = exited 0
