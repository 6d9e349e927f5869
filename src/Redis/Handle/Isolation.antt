-- ===== src/Redis/Handle/Isolation.antt =====
-- What of the client's bytes can reach the upstream.
use credential_gateway.Common.{ℕ, ◌≡◌, ◌⊎◌, Bytes, [], ◌++◌, if◌then◌else◌}
use credential_gateway.Common.Texts.{is_empty}
use credential_gateway.Net.Exit.{Exit}
use credential_gateway.Net.Exit.Ensures.{Ensures}
use credential_gateway.Net.World.{World}
use credential_gateway.Net.Inject.{Injected, Stopped, Relayed}
use credential_gateway.Net.Reader.{Reader}
use credential_gateway.Redis.Auth.Opens.{OpensAuth}
use credential_gateway.Redis.Handle.{auth_command}

-- What the gateway itself sends: the AUTH command where a password is configured.
abbrev pub own_bytes : Bytes → Bytes
own_bytes password = if is_empty password then [] else auth_command password

-- When the pipe begins, the AUTH command was sent, and the client's stream has lost something
-- only if it opened with an AUTH command of its own.
pub record Authenticated (password stream consumed sent : Bytes) : Type 0 where
  pub bytes : sent ≡ own_bytes password
  pub withheld : (consumed ≡ []) ⊎ OpensAuth stream

module _ (max_alloc : ℕ) (password before stream : Bytes) where
  abbrev Permitted : Bytes → Type 0
  Permitted bs = bs ≡ own_bytes password

  abbrev Early : World → Type 0
  Early = Stopped before stream Permitted (Authenticated password stream)

  abbrev Reached : Bytes → Bytes → World → Type 0
  Reached = Injected before stream Permitted (Authenticated password stream)

  abbrev Piped : World → Type 0
  Piped = Relayed before stream Permitted (Authenticated password stream)

  -- What is left of the client's stream when it has been intercepted.
  pub record Split (head : Bytes) (w : World) : Type 0 where
    pub consumed : Bytes
    pub withheld : (consumed ≡ []) ⊎ OpensAuth stream
    pub appended : w.upstream.sent ≡ before ++ own_bytes password
    pub split : stream ≡ consumed ++ (head ++ w.client.inbound)
