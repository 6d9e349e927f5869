-- ===== src/Net/World.antt =====
-- What one handler works on: the client's connection, the upstream's, and the environment's
-- choices.
pub mod Upstream
pub mod Fuel
use credential_gateway.Common.{ℕ, Bool, true, List, if◌then◌else◌}
use credential_gateway.Net.Exit.{done, failed, dial_failed}
use credential_gateway.Net.Exit.Action.{Action}
use credential_gateway.Net.Conn.{Conn}

pub data Side : Type 0 where
  client upstream : Side

-- `reachable` says whether `net.Dial` succeeds, `dialled` that it was called, and `schedule` in
-- which order and in which amounts the two copies of `pipe` move bytes.
pub record World : Type 0 where
  pub client : Conn
  pub upstream : Conn
  pub reachable : Bool
  pub dialled : Bool
  pub schedule : List (Side × ℕ)

module _ {A : Type 0} where
  -- A call on the client's connection, and on the upstream's.
  abbrev pub on_client : Action Conn A → Action World A
  on_client m w = let (r, c) = m w.client in (r, record w { client = c })

  abbrev pub on_upstream : Action Conn A → Action World A
  on_upstream m w = let (r, c) = m w.upstream in (r, record w { upstream = c })

-- `net.Dial("tcp", upstream)`.
unfoldable pub dial : Action World (Unit {0})
dial w =
    if w.reachable
    then (done tt, record w { dialled = true })
    else (failed dial_failed, record w { dialled = true })
