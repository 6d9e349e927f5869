-- ===== src/Admin/Server/Editor.antt =====
-- The admin server as an editor of one text.
use credential_gateway.Common.{
  ℕ, All, map, ◌≡◌, ◌≢◌, refl, Bytes, true, false, List, [], ◌∷◌, Option, none, some, length, leb,
  ◌≤◌, arith, Bool-cases, inl, inr,
}
use credential_gateway.Common.Texts.{codes, equal, equal_iff}
use credential_gateway.Config.Types.{Config, Error, Result, ok, err}
use credential_gateway.Config.Load.{parse}
use credential_gateway.Admin.Server.{
  Request, File, Disk, no_notice, saved, invalid, Response, not_found, cross_origin, bad_form,
  not_allowed, page, store, submit, write_config, same_origin, handle_index, handle_save, serve,
}
use credential_gateway.Admin.Server.Saving.{Saves}

-- A disk on which nothing fails, and the whole content has room.
pub record Works (d : Disk) (r : Request) : Type 0 where
  pub readable : d.readable ≡ true
  pub writable : d.writable ≡ true
  pub room : (content : Bytes) → r.content ≡ some content → length content ≤ d.room
  pub syncs : d.syncs ≡ true
  pub closes : d.closes ≡ true

module _ (decode : Bytes → Option Config) (url_host : Bytes → Option Bytes) where
  -- What an editor of a text answers to a request, and the text after it.
  pub data Edit (t : Bytes) (r : Request) : Response → Bytes → Type 0 where
    shows : r.path ≡ codes "/" → r.method ≡ codes "GET" → Edit t r (page t no_notice) t
    not_shown : r.path ≡ codes "/" → r.method ≢ codes "GET" → Edit t r (not_allowed (codes "GET")) t
    unknown : r.path ≢ codes "/" → r.path ≢ codes "/save" → Edit t r not_found t
    not_posted :
        r.path ≡ codes "/save" → r.method ≢ codes "POST" → Edit t r (not_allowed (codes "POST")) t
    foreign :
        r.path ≡ codes "/save"
        → r.method ≡ codes "POST"
        → same_origin url_host r ≡ false
        → Edit t r cross_origin t
    unformed :
        r.path ≡ codes "/save"
        → r.method ≡ codes "POST"
        → same_origin url_host r ≡ true
        → r.content ≡ none
        → Edit t r bad_form t
    rejects :
        {content : Bytes} {e : Error}
        → r.path ≡ codes "/save"
        → r.method ≡ codes "POST"
        → same_origin url_host r ≡ true
        → r.content ≡ some content
        → parse decode content ≡ err e
        → Edit t r (page content (invalid e)) t
    saves :
        {content : Bytes} → Saves decode url_host r content → Edit t r (page content saved) content

  -- The editor's answers to several requests.
  pub data Edits : Bytes → List Request → List Response → Bytes → Type 0 where
    unedited : {t : Bytes} → Edits t [] [] t
    edited :
        {t u v : Bytes} {r : Request} {rs : List Request} {a : Response} {as_ : List Response}
        → Edit t r a u
        → Edits u rs as_ v
        → Edits t (r ∷ rs) (a ∷ as_) v

  unequal : (xs ys : Bytes) → equal xs ys ≡ false → xs ≢ ys
  unequal xs ys e h = ground (arith, equal_iff xs ys)

  -- The answer is the editor's, and the file holds its text.
  pub record IsEdit (t : Bytes) (r : Request) (o : Response × File) : Type 0 where
    pub after : Bytes
    pub edit : Edit t r o.0 after
    pub holds : o.1 ≡ some after

  module _ (d : Disk) (r : Request) (t : Bytes) (w : Works d r) where
    written :
        (content : Bytes)
        → r.content ≡ some content
        → write_config d content (some t) ≡ (none, some content)
    unfolding write_config
    written content sent =
        let room = w.room content sent in rw (w.writable, leb_of room, w.syncs, w.closes) refl
      where
        leb_of : {m n : ℕ} → m ≤ n → leb m n ≡ true
        leb_of h = ground arith

    module _ (path : equal r.path (codes "/save") ≡ true)
        (method : equal r.method (codes "POST") ≡ true)
        (origin : same_origin url_host r ≡ true) where
      store-IsEdit :
          (content : Bytes) (o : Result Config)
          → r.content ≡ some content
          → parse decode content ≡ o
          → IsEdit t r (store d content o (some t))
      store-IsEdit content (err e) sent valid = record {
        after = t;
        edit = rejects ((equal_iff _ _).0 path) ((equal_iff _ _).0 method) origin sent valid;
        holds = refl;
      }
      store-IsEdit content (ok cfg) sent valid = rw (written content sent) (record {
        after = content;
        edit = saves (record {
          path = (equal_iff _ _).0 path;
          method = (equal_iff _ _).0 method;
          origin = origin;
          sent = sent;
          config = cfg;
          valid = valid;
        });
        holds = refl;
      })

      submit-IsEdit :
          (o : Option Bytes) → r.content ≡ o → IsEdit t r (submit decode url_host d o (some t))
      submit-IsEdit none sent = record {
        after = t;
        edit = unformed ((equal_iff _ _).0 path) ((equal_iff _ _).0 method) origin sent;
        holds = refl;
      }
      submit-IsEdit (some content) sent = store-IsEdit content (parse decode content) sent refl

    handle_save-IsEdit :
        equal r.path (codes "/save") ≡ true → IsEdit t r (handle_save decode url_host d r (some t))
    unfolding handle_save
    handle_save-IsEdit path = elim (Bool-cases (equal r.method (codes "POST"))) [
      | inr e ↦ rw e (record {
        after = t;
        edit = not_posted ((equal_iff _ _).0 path) (unequal _ _ e);
        holds = refl;
      })
      | inl e ↦ rw e (elim (Bool-cases (same_origin url_host r)) [
        | inr k ↦ rw k (record {
          after = t;
          edit = foreign ((equal_iff _ _).0 path) ((equal_iff _ _).0 e) k;
          holds = refl;
        })
        | inl k ↦ rw k (submit-IsEdit path e k r.content refl)
      ])
    ]

    handle_index-IsEdit :
        equal r.path (codes "/save") ≡ false → IsEdit t r (handle_index d r (some t))
    unfolding handle_index
    handle_index-IsEdit other = elim (Bool-cases (equal r.path (codes "/"))) [
      | inr e ↦
          rw e
            (record { after = t; edit = unknown (unequal _ _ e) (unequal _ _ other); holds = refl })
      | inl e ↦ rw e (elim (Bool-cases (equal r.method (codes "GET"))) [
        | inr k ↦ rw k (record {
          after = t;
          edit = not_shown ((equal_iff _ _).0 e) (unequal _ _ k);
          holds = refl;
        })
        | inl k ↦
            rw (k, w.readable)
              (record {
                after = t;
                edit = shows ((equal_iff _ _).0 e) ((equal_iff _ _).0 k);
                holds = refl;
              })
      ])
    ]

    serve-IsEdit : IsEdit t r (serve decode url_host d r (some t))
    unfolding serve
    serve-IsEdit = elim (Bool-cases (equal r.path (codes "/save"))) [
      | inl e ↦ rw e (handle_save-IsEdit e)
      | inr e ↦ rw e (handle_index-IsEdit e)
    ]

  -- Requests one after the other, each with what the disk does then.
  abbrev pub serve_all : List (Disk × Request) → File → List Response × File
  serve_all [] f = ([], f)
  serve_all ((d, r) ∷ rs) f =
      let o = serve decode url_host d r f in
      let later = serve_all rs o.1 in (o.0 ∷ later.0, later.1)

  abbrev pub request_of : Disk × Request → Request
  request_of (d, r) = r

  abbrev pub WorksFor : Disk × Request → Type 0
  WorksFor (d, r) = Works d r

  edit_then :
      (d : Disk) (r : Request) (rs : List (Disk × Request)) (t : Bytes) (o : Response × File)
      → IsEdit t r o
      → ((u : Bytes)
          → (v : Bytes) × Edits u (map request_of rs) (serve_all rs (some u)).0 v
            × ((serve_all rs (some u)).1 ≡ some v))
      → (v : Bytes) × Edits t (r ∷ map request_of rs) (o.0 ∷ (serve_all rs o.1).0) v
        × ((serve_all rs o.1).1 ≡ some v)
  edit_then d r rs t o e later =
      let (v, edits, holds) = later e.after in rw (e.holds) (v, edited e.edit edits, holds)

  -- With a disk on which nothing fails, the server refines an editor of one text: over any
  -- sequence of requests it answers as the editor does, which shows its text and takes the content
  -- of a post from the same origin with a valid configuration, and the file holds the editor's text.
  pub serve_all-Refines :
      (rs : List (Disk × Request)) (t : Bytes)
      → All WorksFor rs
      → (u : Bytes) × Edits t (map request_of rs) (serve_all rs (some t)).0 u
        × ((serve_all rs (some t)).1 ≡ some u)
  serve_all-Refines [] t h = (t, unedited, refl)
  serve_all-Refines ((d, r) ∷ rs) t (w, h) =
      edit_then d r rs t (serve decode url_host d r (some t)) (serve-IsEdit d r t w)
        (λ u. serve_all-Refines rs u h)
