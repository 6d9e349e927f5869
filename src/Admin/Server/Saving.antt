-- ===== src/Admin/Server/Saving.antt =====
-- When a request changes the file.
use credential_gateway.Common.{
  ◌≡◌, ◌⊎◌, inl, inr, refl, Bytes, Bool, true, false, not, Option, none, some, Bool-cases,
  if◌then◌else◌,
}
use credential_gateway.Common.Texts.{codes, equal, equal_iff}
use credential_gateway.Config.Types.{Config, Result, ok, err}
use credential_gateway.Config.Load.{parse}
use credential_gateway.Admin.Server.{
  Request, File, Disk, WriteFault, Response, outcome, store, submit, write_config, same_origin,
  handle_index, handle_save, serve,
}

-- A request that may save: it was posted to /save from the same origin, and its content is a
-- valid configuration.
pub record Saves (decode : Bytes → Option Config) (url_host : Bytes → Option Bytes) (r : Request)
    (content : Bytes) : Type 0 where
  pub path : r.path ≡ codes "/save"
  pub method : r.method ≡ codes "POST"
  pub origin : same_origin url_host r ≡ true
  pub sent : r.content ≡ some content
  pub config : Config
  pub valid : parse decode content ≡ ok config

if_both :
    (b : Bool) (p q : Response × File) (f : File) → p.1 ≡ f → q.1 ≡ f → (if b then p else q).1 ≡ f
if_both true p q f h k = h
if_both false p q f h k = k

handle_index_file : (d : Disk) (r : Request) (f : File) → (handle_index d r f).1 ≡ f
unfolding handle_index
handle_index_file d r f =
    if_both (not (equal r.path (codes "/"))) _ _ f refl
      (if_both (not (equal r.method (codes "GET"))) _ _ f refl refl)

outcome_file : (content : Bytes) (o : Option WriteFault × File) → (outcome content o).1 ≡ o.1
outcome_file content (none, f) = refl
outcome_file content (some e, f) = refl

module _ (decode : Bytes → Option Config) (url_host : Bytes → Option Bytes) where
  module _ (d : Disk) (r : Request) (f : File) where
    -- The file is left, or it is written by a request that may save.
    abbrev Kept : File → Type 0
    Kept g =
        (g ≡ f)
        ⊎ ((content : Bytes) × Saves decode url_host r content × (g ≡ (write_config d content f).1))

    module _ (path : equal r.path (codes "/save") ≡ true)
        (method : equal r.method (codes "POST") ≡ true)
        (origin : same_origin url_host r ≡ true) where
      store-Kept :
          (content : Bytes) (o : Result Config)
          → r.content ≡ some content
          → parse decode content ≡ o
          → Kept (store d content o f).1
      store-Kept content (err e) sent valid = inl refl
      store-Kept content (ok cfg) sent valid = inr (
        content,
        record {
          path = (equal_iff r.path (codes "/save")).0 path;
          method = (equal_iff r.method (codes "POST")).0 method;
          origin = origin;
          sent = sent;
          config = cfg;
          valid = valid;
        },
        outcome_file content (write_config d content f),
      )

      submit-Kept : (o : Option Bytes) → r.content ≡ o → Kept (submit decode url_host d o f).1
      submit-Kept none sent = inl refl
      submit-Kept (some content) sent = store-Kept content (parse decode content) sent refl

    handle_save-Kept :
        equal r.path (codes "/save") ≡ true → Kept (handle_save decode url_host d r f).1
    unfolding handle_save
    handle_save-Kept path = elim (Bool-cases (equal r.method (codes "POST"))) [
      | inr e ↦ rw e (inl refl)
      | inl e ↦ rw e (elim (Bool-cases (same_origin url_host r)) [
        | inr k ↦ rw k (inl refl)
        | inl k ↦ rw k (submit-Kept path e k r.content refl)
      ])
    ]

    -- Whatever the disk does, a request leaves the file as it is, or it may save, and then the
    -- file is what `writeConfig` makes of it for the request's content.
    pub serve-Saves :
        ((serve decode url_host d r f).1 ≡ f)
        ⊎ ((content : Bytes) × Saves decode url_host r content
            × ((serve decode url_host d r f).1 ≡ (write_config d content f).1))
    unfolding serve
    serve-Saves = elim (Bool-cases (equal r.path (codes "/save"))) [
      | inl e ↦ rw e (handle_save-Kept e)
      | inr e ↦ rw e (inl (handle_index_file d r f))
    ]
