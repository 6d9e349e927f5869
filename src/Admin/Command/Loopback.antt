-- ===== src/Admin/Command/Loopback.antt =====
-- The admin server listens to this host only.
use credential_gateway.Common.{
  ℕ, suc, ◌^◌, ◌<◌, ◌≡◌, refl, sym, ap, ◌∙◌, Bytes, Bool, true, false, not, [], ◌∷◌, ◌++◌, Option,
  none, some, arith, ◌==◌, append-nil, if◌then◌else◌,
}
use credential_gateway.Common.Texts.{codes}
use credential_gateway.Std.Decimal.{ℤ, pos, negsuc, decimal, scan_int}
use credential_gateway.Std.Decimal.RoundTrip.{AreDigits, decimal-AreDigits, scan_int-decimal}
use credential_gateway.Admin.Server.{listen_addr, port_text}
use credential_gateway.Admin.Command.{AdminFlags, AdminSystem, exited, serving, run_admin}

-- An address is a host and a port, apart at the last colon.
abbrev extended : ℕ → Bytes → Option (Bytes × Bytes) → Option (Bytes × Bytes)
extended c cs none = if c == b':' then some ([], cs) else none
extended c cs (some (host, port)) = some (c ∷ host, port)

unfoldable pub split_host_port : Bytes → Option (Bytes × Bytes)
split_host_port [] = none
split_host_port (c ∷ cs) = extended c cs (split_host_port cs)

digits_no_colon : (ds : Bytes) → AreDigits ds → split_host_port ds ≡ none
unfolding split_host_port
digits_no_colon [] h = refl
digits_no_colon (d ∷ ds) (h, hs) = rw (digits_no_colon ds hs) (ground arith)

port_no_colon : (port : ℤ) → split_host_port (port_text port) ≡ none
unfolding split_host_port
port_no_colon (pos n) = digits_no_colon (decimal n) (decimal-AreDigits n)
port_no_colon (negsuc n) = rw (digits_no_colon (decimal (suc n)) (decimal-AreDigits (suc n))) refl

split_host_port-append :
    (host port : Bytes)
    → split_host_port port ≡ none
    → split_host_port (host ++ (b':' ∷ port)) ≡ some (host, port)
unfolding split_host_port
split_host_port-append [] port h = rw h refl
split_host_port-append (c ∷ cs) port h = rw (split_host_port-append cs port h) refl

split-listen_addr :
    (port : ℤ) → split_host_port (listen_addr port) ≡ some (codes "127.0.0.1", port_text port)
split-listen_addr port =
    split_host_port-append (codes "127.0.0.1") (port_text port) (port_no_colon port)

serving_inv :
    (accessible bound : Bool) (a p addr path : Bytes)
    → (if not accessible then exited 1 else if bound then serving a p else exited 1)
      ≡ serving addr path
    → (accessible ≡ true) × (bound ≡ true) × (addr ≡ a) × (path ≡ p)
serving_inv false bound a p addr path e = cc
serving_inv true false a p addr path e = cc
serving_inv true true a p addr path e = (refl, refl, cc, cc)

-- When it comes to serve, whatever the flags: what it serves is the file of the flag, which was
-- found, at an address that could be bound, whose host is 127.0.0.1, and whose port is the number
-- of the flag.
pub run_admin-Loopback :
    (flags : AdminFlags) (s : AdminSystem) (addr path : Bytes)
    → run_admin flags s ≡ serving addr path
    → (path ≡ flags.config)
      × (s.accessible path ≡ true)
      × (s.binds addr ≡ true)
      × (split_host_port addr ≡ some (codes "127.0.0.1", port_text flags.port))
      × ((n : ℕ) → flags.port ≡ pos n → n < 2 ^ 63 → scan_int (port_text flags.port) ≡ some (pos n))
unfolding run_admin
run_admin-Loopback flags s addr path e =
    let (found, bound, at, of_flag) =
      serving_inv (s.accessible flags.config) (s.binds (listen_addr flags.port))
        (listen_addr flags.port) flags.config addr path e in
    (
      of_flag,
      ap s.accessible of_flag ∙ found,
      ap s.binds at ∙ bound,
      ap split_host_port at ∙ split-listen_addr flags.port,
      λ n is_n small.
          ap (λ q. scan_int (port_text q)) is_n
          ∙ ap scan_int (sym (append-nil (decimal n)))
          ∙ scan_int-decimal n [] small refl,
    )
