-- ===== src/Admin/Server/Reporting.antt =====
-- When the page says that the configuration was saved.
use credential_gateway.Common.{
  ◌≡◌, inl, inr, refl, sym, ap, ◌∙◌, Bytes, Bool, true, false, not, Option, none, some, Bool-cases,
  length, leb, if◌then◌else◌,
}
use credential_gateway.Common.Texts.{codes, equal, equal_iff}
use credential_gateway.Config.Types.{Config, Result, ok, err}
use credential_gateway.Config.Load.{parse}
use credential_gateway.Admin.Server.{
  Request, File, Disk, WriteFault, open_failed, write_failed, sync_failed, close_failed, Response,
  not_found, cross_origin, not_allowed, page, saved, outcome, store, submit, write_config,
  same_origin, read_file, shown, handle_index, handle_save, serve,
}
use credential_gateway.Admin.Server.Saving.{Saves}

-- The response says that `content` was saved.
abbrev Says : Bytes → Response × File → Type 0
Says content o = o.0 ≡ page content saved

shown_silent : (content : Bytes) (o : Option Bytes) → shown o ≡ page content saved → ⊥
shown_silent content none e = cc
shown_silent content (some bs) e = cc

handle_index_silent :
    (d : Disk) (r : Request) (f : File) (content : Bytes) → Says content (handle_index d r f) → ⊥
unfolding handle_index
handle_index_silent d r f content h = elim (Bool-cases (equal r.path (codes "/"))) [
  | inr e ↦ let p : not_found ≡ page content saved = rw e at h in cc
  | inl e ↦ elim (Bool-cases (equal r.method (codes "GET"))) [
    | inr k ↦ let p : not_allowed (codes "GET") ≡ page content saved = rw (e, k) at h in cc
    | inl k ↦ shown_silent content (read_file d f) (rw (e, k) at h)
  ]
]

-- The text was there to write, and was written, flushed and closed.
pub record Written (d : Disk) (content : Bytes) (f g : File) : Type 0 where
  pub old : Bytes
  pub existed : f ≡ some old
  pub holds : g ≡ some content
  pub synced : d.syncs ≡ true
  pub closed : d.closes ≡ true

same_page : (b : Bytes) (content : Bytes) → page b saved ≡ page content saved → b ≡ content
same_page b content e = cc

outcome-Says :
    (content b : Bytes) (o : Option WriteFault × File)
    → Says content (outcome b o)
    → (b ≡ content) × (o.0 ≡ none) × ((outcome b o).1 ≡ o.1)
outcome-Says content b (none, f) h = (same_page b content h, refl, refl)
outcome-Says content b (some e, f) h = cc

write_config-Written :
    (d : Disk) (content : Bytes) (f : File)
    → (write_config d content f).0 ≡ none
    → Written d content f (write_config d content f).1
unfolding write_config
write_config-Written d content none h = cc
write_config-Written d content (some old) h = elim (Bool-cases d.writable) [
  | inr e ↦ let p : some open_failed ≡ none = rw e at h in cc
  | inl e ↦ elim (Bool-cases (leb (length content) d.room)) [
    | inr k ↦ let p : some write_failed ≡ none = rw (e, k) at h in cc
    | inl k ↦ simp (e, k) (flushed d.syncs d.closes refl refl (rw (e, k) at h))
  ]
]
  where
    flushed :
        (a b : Bool)
        → d.syncs ≡ a
        → d.closes ≡ b
        → (if not a then some sync_failed else if not b then some close_failed else none) ≡ none
        → Written d content (some old) (some content)
    flushed true true p q h' = record {
      old = old;
      existed = refl;
      holds = refl;
      synced = p;
      closed = q;
    }
    flushed true false p q h' = cc
    flushed false b p q h' = cc

module _ (decode : Bytes → Option Config) (url_host : Bytes → Option Bytes) (d : Disk) (r : Request)
    (f : File) (content : Bytes) where
  -- What stands behind a page that says so.
  abbrev Stored : File → Type 0
  Stored g = Saves decode url_host r content × Written d content f g

  module _ (path : equal r.path (codes "/save") ≡ true)
      (method : equal r.method (codes "POST") ≡ true) (origin : same_origin url_host r ≡ true) where
    store-Stored :
        (b : Bytes) (o : Result Config)
        → r.content ≡ some b
        → parse decode b ≡ o
        → Says content (store d b o f)
        → Stored (store d b o f).1
    store-Stored b (err e) sent valid h = cc
    store-Stored b (ok cfg) sent valid h =
        let (same, silent, kept) = outcome-Says content b (write_config d b f) h in
        (
          record {
            path = (equal_iff r.path (codes "/save")).0 path;
            method = (equal_iff r.method (codes "POST")).0 method;
            origin = origin;
            sent = sent ∙ ap some same;
            config = cfg;
            valid = ap (parse decode) (sym same) ∙ valid;
          },
          rw (kept, ← same) (write_config-Written d b f silent),
        )

    submit-Stored :
        (o : Option Bytes)
        → r.content ≡ o
        → Says content (submit decode url_host d o f)
        → Stored (submit decode url_host d o f).1
    submit-Stored none sent h = cc
    submit-Stored (some b) sent h = store-Stored b (parse decode b) sent refl h

  handle_save-Stored :
      equal r.path (codes "/save") ≡ true
      → Says content (handle_save decode url_host d r f)
      → Stored (handle_save decode url_host d r f).1
  unfolding handle_save
  handle_save-Stored path h = elim (Bool-cases (equal r.method (codes "POST"))) [
    | inr e ↦ let p : not_allowed (codes "POST") ≡ page content saved = rw e at h in cc
    | inl e ↦ rw e (elim (Bool-cases (same_origin url_host r)) [
      | inr k ↦ let p : cross_origin ≡ page content saved = rw (e, k) at h in cc
      | inl k ↦ rw k (submit-Stored path e k r.content refl (rw (e, k) at h))
    ])
  ]

  -- When the page says that a text was saved, it was: the request may save it, the file was there
  -- and now holds exactly that text, and it was flushed and closed without error.
  pub serve-Written :
      (serve decode url_host d r f).0 ≡ page content saved
      → Saves decode url_host r content × Written d content f (serve decode url_host d r f).1
  unfolding serve
  serve-Written h = elim (Bool-cases (equal r.path (codes "/save"))) [
    | inl e ↦ rw e (handle_save-Stored e (rw e at h))
    | inr e ↦ absurd (handle_index_silent d r f content (rw e at h))
  ]
