-- ===== src/Tests/Serving.antt =====
-- The admin server at concrete inputs.
use credential_gateway.Common.{
  ℕ, ◌<◌, ◌^◌, ◌≤◌, length, arith, ◌≡◌, ◌↔◌, ◌⊎◌, refl, Bytes, true, [], ◌∷◌, Option, none, some,
  ap, if◌then◌else◌,
}
use credential_gateway.Common.Texts.{codes, equal, is_empty}
use credential_gateway.Config.Types.{Config, RedisService, ok}
use credential_gateway.Config.Validate.{validate, check_services, first_missing, claim, lookup}
use credential_gateway.Config.Load.{parse}
use credential_gateway.Admin.Server.{
  Request, File, Disk, page, saved, write_config, same_origin, serve,
}
use credential_gateway.Std.Decimal.{pos, scan_int}
use credential_gateway.Admin.Server.{listen_addr, port_text}
use credential_gateway.Admin.Command.{AdminSystem, default_flags, serving, run_admin}
use credential_gateway.Admin.Command.Loopback.{split_host_port, run_admin-Loopback}
use credential_gateway.Admin.Server.Origin.{IsSameOrigin, same_origin_iff}
use credential_gateway.Admin.Server.Saving.{Saves, serve-Saves}
use credential_gateway.Admin.Server.Serving.{
  unserved, served, HoldsConfig, HoldsPrefix, TakesWhole, serve-HoldsConfig, serve-HoldsPrefix,
}
use credential_gateway.Admin.Server.Reporting.{Written, serve-Written}
use credential_gateway.Admin.Server.Editor.{Edits, serve_all, serve_all-Refines}

abbrev cache : RedisService
cache = record { listen = codes "127.0.0.1:6379"; upstream = codes "cache:6379"; password = [] }

abbrev other_cache : RedisService
other_cache = record {
  listen = codes "127.0.0.1:6380";
  upstream = codes "cache:6380";
  password = [];
}

abbrev pub config : Config
config = record {
  http = [];
  mysql = [];
  redis = cache ∷ other_cache ∷ [];
  postgres = [];
  oracle = [];
}

abbrev pub decode : Bytes → Option Config
decode bs = if is_empty bs then none else some config

config_valid : validate config ≡ ok tt
unfolding validate check_services first_missing claim lookup equal
config_valid = refl

abbrev pub text : Bytes
text = codes "redis: [...]"

text_valid : parse decode text ≡ ok config
unfolding parse
text_valid = rw config_valid refl

abbrev url_host : Bytes → Option Bytes
url_host bs = some (codes "127.0.0.1:8099")

abbrev disk : Disk
disk = record { readable = true; writable = true; room = 100; syncs = true; closes = true }

abbrev post : Request
post = record {
  path = codes "/save";
  method = codes "POST";
  host = codes "127.0.0.1:8099";
  origin = codes "http://127.0.0.1:8099";
  referer = [];
  content = some text;
}

abbrev old_file : File
old_file = some (codes "redis:")

same_origin_iff_example : (same_origin url_host post ≡ true) ↔ IsSameOrigin url_host post
same_origin_iff_example = same_origin_iff url_host post

serve-Saves_example :
    ((serve decode url_host disk post old_file).1 ≡ old_file)
    ⊎ ((content : Bytes) × Saves decode url_host post content
        × ((serve decode url_host disk post old_file).1 ≡ (write_config disk content old_file).1))
serve-Saves_example = serve-Saves decode url_host disk post old_file

stored : serve decode url_host disk post old_file ≡ (page text saved, some text)
unfolding serve equal
stored = rw text_valid refl

serve-Written_example :
    Saves decode url_host post text
    × Written disk text old_file (serve decode url_host disk post old_file).1
serve-Written_example = serve-Written decode url_host disk post old_file text (ap (λ o. o.0) stored)

file_valid : HoldsConfig decode url_host (some text)
file_valid = record { content = text; config = config; holds = refl; valid = text_valid }

-- The post above, with a disk that takes it.
whole : TakesWhole decode url_host (disk, post)
whole content e = omega (arith, size e)
  where
    size : {content : Bytes} → some text ≡ some content → length content ≡ 12
    size e = cc

serve-HoldsConfig_example :
    HoldsConfig decode url_host (serve decode url_host disk post (some text)).1
serve-HoldsConfig_example =
    serve-HoldsConfig decode url_host (some text) (serve decode url_host disk post (some text)).1
      (served unserved whole refl) file_valid

file_begun : HoldsPrefix decode url_host (some (codes "redis:"))
file_begun = record {
  content = codes "redis:";
  rest = codes " [...]";
  config = config;
  holds = refl;
  valid = text_valid;
}

-- A disk that has room for three bytes.
abbrev full_disk : Disk
full_disk = record disk { room = 3 }

serve-HoldsPrefix_example :
    HoldsPrefix decode url_host (serve decode url_host full_disk post old_file).1
serve-HoldsPrefix_example =
    serve-HoldsPrefix decode url_host old_file (serve decode url_host full_disk post old_file).1
      (served unserved tt refl) file_begun

abbrev fetch : Request
fetch = record post { path = codes "/"; method = codes "GET"; content = none }

room_for_text : (content : Bytes) → some text ≡ some content → length content ≤ 100
room_for_text content e = omega (arith, size e)
  where
    size : {content : Bytes} → some text ≡ some content → length content ≡ 12
    size e = cc

no_content : (content : Bytes) → none ≡ some content → length content ≤ 100
no_content content e = cc

-- A post and then a fetch.
serve_all-Refines_example :
    (u : Bytes) × Edits decode url_host
      (codes "redis:")
      (post ∷ fetch ∷ [])
      (serve_all decode url_host ((disk, post) ∷ (disk, fetch) ∷ []) old_file).0
      u
    × ((serve_all decode url_host ((disk, post) ∷ (disk, fetch) ∷ []) old_file).1 ≡ some u)
serve_all-Refines_example =
    serve_all-Refines decode url_host ((disk, post) ∷ (disk, fetch) ∷ []) (codes "redis:") (
      record {
        readable = refl;
        writable = refl;
        room = room_for_text;
        syncs = refl;
        closes = refl;
      },
      (
        record { readable = refl; writable = refl; room = no_content; syncs = refl; closes = refl },
        tt,
      ),
    )

abbrev machine : AdminSystem
machine = record { accessible = λ path. equal path default_flags.config; binds = λ addr. true }

serves : run_admin default_flags machine ≡ serving (listen_addr (pos 8099)) default_flags.config
unfolding run_admin equal
serves = refl

run_admin-Loopback_example :
    (default_flags.config ≡ default_flags.config)
    × (machine.accessible default_flags.config ≡ true)
    × (machine.binds (listen_addr (pos 8099)) ≡ true)
    × (split_host_port (listen_addr (pos 8099)) ≡ some (codes "127.0.0.1", port_text (pos 8099)))
    × ((n : ℕ)
        → default_flags.port ≡ pos n
        → n < 2 ^ 63
        → scan_int (port_text default_flags.port) ≡ some (pos n))
run_admin-Loopback_example =
    run_admin-Loopback default_flags machine (listen_addr (pos 8099)) default_flags.config serves
