-- ===== src/Admin/Server.antt =====
-- internal/admin/server.go: the two handlers, and the file that they read and write.
pub mod Origin
pub mod Saving
pub mod Serving
pub mod Reporting
pub mod Editor
use credential_gateway.Common.{
  ℕ, suc, Bytes, Bool, true, false, not, List, [], ◌∷◌, ◌++◌, Option, none, some, length, take, leb,
  if◌then◌else◌,
}
use credential_gateway.Common.Texts.{codes, is_empty, equal}
use credential_gateway.Std.Decimal.{ℤ, pos, negsuc, decimal}
use credential_gateway.Config.Types.{Config, Error, Result, ok, err}
use credential_gateway.Config.Load.{parse}

-- A request as net/http hands it over: "" for a header that is missing, and `content` for the
-- form's field of that name once `ParseForm` has succeeded.
pub record Request : Type 0 where
  pub path : Bytes
  pub method : Bytes
  pub host : Bytes
  pub origin : Bytes
  pub referer : Bytes
  pub content : Option Bytes

-- The content of the file, if it exists.
abbrev pub File : Type 0
File = Option Bytes

-- What the system does with this request's calls: whether the file may be read and opened for
-- writing, how many bytes a write takes, and whether `Sync` and `Close` succeed.
pub record Disk : Type 0 where
  pub readable : Bool
  pub writable : Bool
  pub room : ℕ
  pub syncs : Bool
  pub closes : Bool

pub data WriteFault : Type 0 where
  open_failed write_failed sync_failed close_failed : WriteFault

-- The message of the page.
pub data Notice : Type 0 where
  no_notice saved : Notice
  invalid : Error → Notice
  not_written : WriteFault → Notice

pub data Response : Type 0 where
  not_found cross_origin bad_form cannot_read : Response
  not_allowed : Bytes → Response
  page : Bytes → Notice → Response

-- `f.Sync()` and `f.Close()`.
abbrev pub flush : Disk → Option WriteFault
flush d =
    if not (d.syncs) then some sync_failed else if not (d.closes) then some close_failed else none

-- `writeConfig`: opened without O_CREATE and with O_TRUNC, written in place.
unfoldable pub write_config : Disk → Bytes → File → Option WriteFault × File
write_config d data_ none = (some open_failed, none)
write_config d data_ (some old) =
    if not (d.writable)
    then (some open_failed, some old)
    else if leb (length data_) (d.room)
    then (flush d, some data_)
    else (some write_failed, some (take (d.room) data_))

abbrev pub source_of : Request → Bytes
source_of r = if is_empty r.origin then r.referer else r.origin

abbrev pub matches : Bytes → Option Bytes → Bool
matches host none = false
matches host (some h) = if is_empty h then false else equal h host

-- `url_host` is `url.Parse`: the host of the URL, or none where it gives an error.
module _ (url_host : Bytes → Option Bytes) where
  -- `sameOrigin`.
  unfoldable pub same_origin : Request → Bool
  same_origin r = if is_empty (source_of r) then false else matches r.host (url_host (source_of r))

abbrev pub read_file : Disk → File → Option Bytes
read_file d none = none
read_file d (some bs) = if d.readable then some bs else none

abbrev pub shown : Option Bytes → Response
shown none = cannot_read
shown (some bs) = page bs no_notice

-- `handleIndex`.
unfoldable pub handle_index : Disk → Request → File → Response × File
handle_index d r f =
    if not (equal r.path (codes "/"))
    then (not_found, f)
    else if not (equal r.method (codes "GET"))
    then (not_allowed (codes "GET"), f)
    else (shown (read_file d f), f)

abbrev pub outcome : Bytes → Option WriteFault × File → Response × File
outcome content (none, f) = (page content saved, f)
outcome content (some e, f) = (page content (not_written e), f)

-- From `config.Parse` on.
abbrev pub store : Disk → Bytes → Result Config → File → Response × File
store d content (err e) f = (page content (invalid e), f)
store d content (ok cfg) f = outcome content (write_config d content f)

module _ (decode : Bytes → Option Config) (url_host : Bytes → Option Bytes) where
  abbrev pub submit : Disk → Option Bytes → File → Response × File
  submit d none f = (bad_form, f)
  submit d (some content) f = store d content (parse decode content) f

  -- `handleSave`.
  unfoldable pub handle_save : Disk → Request → File → Response × File
  unfolding same_origin write_config
  handle_save d r f =
      if not (equal r.method (codes "POST"))
      then (not_allowed (codes "POST"), f)
      else if not (same_origin url_host r)
      then (cross_origin, f)
      else submit d r.content f

  -- `Handler`: the two routes. The path is clean: `ServeMux` redirects a request with another one
  -- to its clean form before any handler sees it.
  unfoldable pub serve : Disk → Request → File → Response × File
  unfolding handle_index handle_save
  serve d r f = if equal r.path (codes "/save") then handle_save d r f else handle_index d r f

-- `ListenAddr`: the port is an `int`.
abbrev pub port_text : ℤ → Bytes
port_text (pos n) = decimal n
port_text (negsuc n) = b'-' ∷ decimal (suc n)

abbrev pub listen_addr : ℤ → Bytes
listen_addr port = codes "127.0.0.1:" ++ port_text port
