-- ===== src/Admin/Server/Serving.antt =====
-- The file over any sequence of requests.
use credential_gateway.Common.{
  ℕ, ◌≤◌, ◌≡◌, ◌⊎◌, inl, inr, refl, sym, ap, ◌∙◌, Bytes, ◌++◌, Option, some, Bool-cases, take, drop,
  length, leb, take-append-drop, take_all, arith,
}
use credential_gateway.Config.Types.{Config, ok}
use credential_gateway.Config.Load.{parse}
use credential_gateway.Admin.Server.{Request, File, Disk, write_config, serve}
use credential_gateway.Admin.Server.Saving.{serve-Saves}

module _ (decode : Bytes → Option Config) (url_host : Bytes → Option Bytes) where
  -- The file after some requests, one after the other, each with what the disk does then.
  pub data Reaches (P : Disk × Request → Type 0) (f : File) : File → Type 0 where
    unserved : Reaches P f f
    served :
        {g h : File} {d : Disk} {r : Request}
        → Reaches P f g
        → P (d, r)
        → h ≡ (serve decode url_host d r g).1
        → Reaches P f h

  -- The file is there, and holds a text that `Parse` accepts.
  pub record HoldsConfig (f : File) : Type 0 where
    pub content : Bytes
    pub config : Config
    pub holds : f ≡ some content
    pub valid : parse decode content ≡ ok config

  -- The file is there, and holds the beginning of such a text.
  pub record HoldsPrefix (f : File) : Type 0 where
    pub content : Bytes
    pub rest : Bytes
    pub config : Config
    pub holds : f ≡ some content
    pub valid : parse decode (content ++ rest) ≡ ok config

  -- The disk takes as many bytes as the request's content has.
  abbrev pub TakesWhole : Disk × Request → Type 0
  TakesWhole (d, r) = (content : Bytes) → r.content ≡ some content → length content ≤ d.room

  -- What a write leaves: the old content, or the beginning of the new.
  write_config-prefix :
      (d : Disk) (content old : Bytes)
      → ((write_config d content (some old)).1 ≡ some old)
        ⊎ ((n : ℕ) × ((write_config d content (some old)).1 ≡ some (take n content))
            × (length content ≤ d.room → take n content ≡ content))
  unfolding write_config
  write_config-prefix d content old = elim (Bool-cases d.writable) [
    | inr e ↦ rw e (inl refl)
    | inl e ↦ rw e (elim (Bool-cases (leb (length content) d.room)) [
      | inl k ↦ rw k (inr (length content, ap some (sym (all content)), λ _. all content))
      | inr k ↦ rw k (inr (d.room, refl, λ h. take_all d.room content h))
    ])
  ]
    where
      all : (content : Bytes) → take (length content) content ≡ content
      all content = take_all (length content) content (omega arith)

  -- One request leaves the file, or a beginning of a text that `Parse` accepts.
  serve-keeps :
      (d : Disk) (r : Request) (old : Bytes)
      → ((serve decode url_host d r (some old)).1 ≡ some old)
        ⊎ ((content : Bytes) × (n : ℕ) × (cfg : Config) × ((serve decode url_host d r (some old)).1
              ≡ some (take n content))
            × (parse decode content ≡ ok cfg)
            × (TakesWhole (d, r) → take n content ≡ content))
  serve-keeps d r old = elim (serve-Saves decode url_host d r (some old)) [
    | inl e ↦ inl e
    | inr (content, s, e) ↦ elim (write_config-prefix d content old) [
      | inl k ↦ inl (e ∙ k)
      | inr (n, k, whole) ↦
          inr (content, n, s.config, e ∙ k, s.valid, λ t. whole (t content s.sent))
    ]
  ]

  step-HoldsConfig :
      (d : Disk) (r : Request) (g h : File)
      → TakesWhole (d, r)
      → h ≡ (serve decode url_host d r g).1
      → HoldsConfig g
      → HoldsConfig h
  step-HoldsConfig d r g h whole e k =
      let e' = e ∙ ap (λ f. (serve decode url_host d r f).1) k.holds in
      elim (serve-keeps d r k.content) [
        | inl q ↦ record { content = k.content; config = k.config; holds = e' ∙ q; valid = k.valid }
        | inr (content, n, cfg, q, v, w) ↦ record {
          content = content;
          config = cfg;
          holds = e' ∙ q ∙ ap some (w whole);
          valid = v;
        }
      ]

  step-HoldsPrefix :
      (d : Disk) (r : Request) (g h : File)
      → h ≡ (serve decode url_host d r g).1
      → HoldsPrefix g
      → HoldsPrefix h
  step-HoldsPrefix d r g h e k =
      let e' = e ∙ ap (λ f. (serve decode url_host d r f).1) k.holds in
      elim (serve-keeps d r k.content) [
        | inl q ↦ record {
          content = k.content;
          rest = k.rest;
          config = k.config;
          holds = e' ∙ q;
          valid = k.valid;
        }
        | inr (content, n, cfg, q, v, w) ↦ record {
          content = take n content;
          rest = drop n content;
          config = cfg;
          holds = e' ∙ q;
          valid = ap (parse decode) (take-append-drop n content) ∙ v;
        }
      ]

  -- As long as no write is cut short, a valid configuration stays one: whatever requests come in,
  -- in any order, the file is there and holds a text that the gateway's own `Parse` accepts.
  pub serve-HoldsConfig : (f g : File) → Reaches TakesWhole f g → HoldsConfig f → HoldsConfig g
  serve-HoldsConfig f g unserved k = k
  serve-HoldsConfig f _ (served {g} {h} {d} {r} s whole e) k =
      step-HoldsConfig d r g h whole e (serve-HoldsConfig f g s k)

  -- Whatever the disk does, the file is never removed, and it never holds anything but such a text
  -- or the beginning of one: that of a write that was cut short.
  pub serve-HoldsPrefix : (f g : File) → Reaches (λ _. Unit {0}) f g → HoldsPrefix f → HoldsPrefix g
  serve-HoldsPrefix f g unserved k = k
  serve-HoldsPrefix f _ (served {g} {h} {d} {r} s _ e) k =
      step-HoldsPrefix d r g h e (serve-HoldsPrefix f g s k)
