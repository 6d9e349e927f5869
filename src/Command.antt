-- ===== src/Command.antt =====
-- main.go: the command `credential-gateway`.
pub mod Runs
use credential_gateway.Common.{
  ℕ, Bytes, Bool, true, false, List, [], ◌∷◌, Option, none, some, if◌then◌else◌,
}
use credential_gateway.Common.Texts.{codes, is_empty, equal}
use credential_gateway.Config.Types.{Config, Result, ok, err}
use credential_gateway.Config.Load.{FileSystem, load}
use credential_gateway.Gateway.{
  NamedListener, new, Sockets, Active, Started, StartFault, start_all, stop_all,
}

pub data Level : Type 0 where
  debug info warn error : Level

-- The `switch` over the lower-case text.
abbrev pub level_named : Bytes → Option Level
level_named text =
    if is_empty text
    then some info
    else if equal text (codes "info")
    then some info
    else if equal text (codes "debug")
    then some debug
    else if equal text (codes "warn")
    then some warn
    else if equal text (codes "error")
    then some error
    else none

-- `resolveLogLevel`; `to_lower` is `strings.ToLower`.
unfoldable pub resolve_log_level : (Bytes → Bytes) → Bytes → Bytes → Option Level
resolve_log_level to_lower flag_value env_value =
    level_named (to_lower (if is_empty flag_value then env_value else flag_value))

-- The flags, but for the one that adds positions to log lines, and CG_LOG_LEVEL.
pub record Flags : Type 0 where
  pub config : Bytes
  pub validate : Bool
  pub version : Bool
  pub log_level : Bytes
  pub env_level : Bytes

pub data Status : Type 0 where
  exit : ℕ → Status
  returned : Status

-- How the process ends, with which sockets it waited for the signal, if it did, and which sockets
-- it leaves to the system.
pub record Run : Type 0 where
  pub status : Status
  pub serving : Option Sockets
  pub left : Sockets

abbrev pub ends : ℕ → Sockets → Run
ends code s = record { status = exit code; serving = none; left = s }

-- `stop_order` is the order in which the goroutines of `Stop` run.
module _ (to_lower : Bytes → Bytes) (decode : Bytes → Option Config) (url_parses : Bytes → Bool)
    (stop_order : List Active → List Active) where
  abbrev pub after_start : Started → Run
  after_start (some e, (as_, s)) = ends 1 s
  after_start (none, (as_, s)) = record {
    status = returned;
    serving = some s;
    left = stop_all (stop_order as_) s;
  }

  abbrev pub with_config : Bool → Sockets → Result Config → Run
  with_config only_validate s (err e) = ends 1 s
  with_config only_validate s (ok cfg) =
      if only_validate then ends 0 s else after_start (start_all url_parses (new cfg) s)

  abbrev pub with_level : Bool → Sockets → Result Config → Option Level → Run
  with_level only_validate s loaded none = ends 1 s
  with_level only_validate s loaded (some l) = with_config only_validate s loaded

  -- `main`: up to the end of the process, which a signal brings about once it listens.
  unfoldable pub run : Flags → FileSystem → Bytes → Sockets → Run
  run flags fs home s =
      if flags.version
      then ends 0 s
      else with_level flags.validate s (load decode fs home flags.config)
          (resolve_log_level to_lower flags.log_level flags.env_level)
