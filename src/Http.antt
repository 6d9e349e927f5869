-- ===== src/Http.antt =====
-- internal/gateway/http.go: the director of the reverse proxy.
pub mod Headers
use credential_gateway.Common.{Bytes, List, [], ◌∷◌, Option, none, some, if◌then◌else◌}
use credential_gateway.Common.Texts.{equal}

-- `http.Header`: a map from canonical keys to values.
abbrev pub Header : Type 0
Header = List (Bytes × List Bytes)

abbrev pub values : Bytes → Header → Option (List Bytes)
values key [] = none
values key ((k, vs) ∷ h) = if equal key k then some vs else values key h

abbrev pub remove : Bytes → Header → Header
remove key [] = []
remove key ((k, vs) ∷ h) = if equal key k then remove key h else (k, vs) ∷ remove key h

-- What of a request the director changes.
pub record Outbound : Type 0 where
  pub host : Bytes
  pub header : Header

-- `canonical` is `textproto.CanonicalMIMEHeaderKey`, which `Del` and `Set` apply to the key.
module _ (canonical : Bytes → Bytes) where
  abbrev pub del : Bytes → Header → Header
  del key h = remove (canonical key) h

  abbrev pub set_header : Bytes → Bytes → Header → Header
  set_header key v h = (canonical key, v ∷ []) ∷ remove (canonical key) h

  -- The loop over the configured headers, in the order in which it visits the map.
  unfoldable pub replace_headers : List (Bytes × Bytes) → Header → Header
  replace_headers [] h = h
  replace_headers ((k, v) ∷ rest) h = replace_headers rest (set_header k v (del k h))

  -- `rp.Director`; `original` is that of `NewSingleHostReverseProxy`.
  unfoldable pub director :
      (Outbound → Outbound) → Bytes → List (Bytes × Bytes) → Outbound → Outbound
  unfolding replace_headers
  director original upstream_host headers r = record {
    host = upstream_host;
    header = replace_headers headers ((original r).header);
  }
