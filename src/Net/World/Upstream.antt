-- ===== src/Net/World/Upstream.antt =====
-- A call on the upstream's connection that is made of several.
use credential_gateway.Net.Exit.{Exit, done, failed, panicked}
use credential_gateway.Net.Exit.Action.{Action, continue, ◌>>=◌}
use credential_gateway.Net.Exit.Ensures.{Holds, Ensures}
use credential_gateway.Net.Conn.{Conn}
use credential_gateway.Net.World.{World, on_upstream}

module _ {A B : Type 0} {R : World → Type 0} {T : B → World → Type 0} {Q : A → World → Type 0}
    (f : A → Action Conn B) where
  upstream_continue :
      (w : World) (o : Exit A × Conn)
      → Holds Q R (o.0, record w { upstream = o.1 })
      → ((a : A) → Ensures (Q a) (on_upstream (f a)) T R)
      → Holds T R ((continue o.0 f o.1).0, record w { upstream = (continue o.0 f o.1).1 })
  upstream_continue w (done a, c) h k = (k a).at (record w { upstream = c }) h
  upstream_continue w (failed e, c) h k = h
  upstream_continue w (panicked, c) h k = h

  pub Ensures-upstream_bind :
      {P : World → Type 0} (m : Action Conn A)
      → Ensures P (on_upstream m) Q R
      → ((a : A) → Ensures (Q a) (on_upstream (f a)) T R)
      → Ensures P (on_upstream (m >>= f)) T R
  Ensures-upstream_bind m h k = record {
    at = λ w p. upstream_continue w (m w.upstream) (h.at w p) k;
  }
