-- ===== src/Config/Load/Loads.antt =====
-- Which file and which content `Load` accepts.
use credential_gateway.Common.{
  ◌≡◌, ◌↔◌, refl, sym, ap, subst, ◌∙◌, Bytes, Bool, true, false, List, [], ◌∷◌, Option, none, some,
  if◌then◌else◌,
}
use credential_gateway.Common.Texts.{is_empty}
use credential_gateway.Config.Types.{Config, Error, ok, >>=-eq-ok}
use credential_gateway.Config.Validate.Exact.{IsValid, validate_iff}
use credential_gateway.Config.Acl.{check_permissions}
use credential_gateway.Config.Load.{FileSystem, search_paths, first_existing, given, parse, load}

-- `p` is the first of the paths that exists.
pub data IsFirst (fs : FileSystem) (p : Bytes) : List Bytes → Type 0 where
  here : {ps : List Bytes} → fs.exists p ≡ true → IsFirst fs p (p ∷ ps)
  there :
      {q : Bytes} {ps : List Bytes} → fs.exists q ≡ false → IsFirst fs p ps → IsFirst fs p (q ∷ ps)

-- The path of the command line or, where there is none, the first search path that exists.
abbrev pub IsChosen : FileSystem → Bytes → Bytes → Bytes → Type 0
IsChosen fs home [] p = IsFirst fs p (search_paths home)
IsChosen fs home (c ∷ cs) p = p ≡ c ∷ cs

-- The file that was loaded, and its content.
pub record Loads (decode : Bytes → Option Config) (fs : FileSystem) (home path : Bytes)
    (cfg : Config) : Type 0 where
  pub file : Bytes
  pub content : Bytes
  pub chosen : IsChosen fs home path file
  pub named : is_empty file ≡ false
  pub permitted : check_permissions (fs.info file) ≡ ok tt
  pub read : fs.content file ≡ some content
  pub decoded : decode content ≡ some cfg
  pub valid : IsValid cfg

first_existing-IsFirst :
    (fs : FileSystem) (ps : List Bytes)
    → is_empty (first_existing fs ps) ≡ false
    → IsFirst fs (first_existing fs ps) ps
unfolding first_existing
first_existing-IsFirst fs [] h = cc
first_existing-IsFirst fs (p ∷ ps) h =
    go (fs.exists p) refl h (λ h'. first_existing-IsFirst fs ps h')
  where
    go :
        (b : Bool)
        → fs.exists p ≡ b
        → is_empty (if b then p else first_existing fs ps) ≡ false
        → (is_empty (first_existing fs ps) ≡ false → IsFirst fs (first_existing fs ps) ps)
        → IsFirst fs (if b then p else first_existing fs ps) (p ∷ ps)
    go true e h' k = here e
    go false e h' k = there e (k h')

IsFirst-first_existing :
    (fs : FileSystem) (p : Bytes) (ps : List Bytes) → IsFirst fs p ps → first_existing fs ps ≡ p
unfolding first_existing
IsFirst-first_existing fs p [] i = absurd (elim i [ ])
IsFirst-first_existing fs p (q ∷ ps) (here e) = rw e refl
IsFirst-first_existing fs p (q ∷ ps) (there e i) = rw e (IsFirst-first_existing fs p ps i)

abbrev chosen_path : FileSystem → Bytes → Bytes → Bytes
chosen_path fs home path = if is_empty path then first_existing fs (search_paths home) else path

chosen_path-IsChosen :
    (fs : FileSystem) (home path : Bytes)
    → is_empty (chosen_path fs home path) ≡ false
    → IsChosen fs home path (chosen_path fs home path)
chosen_path-IsChosen fs home [] h = first_existing-IsFirst fs (search_paths home) h
chosen_path-IsChosen fs home (c ∷ cs) h = refl

IsChosen-chosen_path :
    (fs : FileSystem) (home path p : Bytes) → IsChosen fs home path p → chosen_path fs home path ≡ p
IsChosen-chosen_path fs home [] p i = IsFirst-first_existing fs p (search_paths home) i
IsChosen-chosen_path fs home (c ∷ cs) p i = sym i

given-some {ℓ} : {A : Type ℓ} (o : Option A) (e : Error) (a : A) → given o e ≡ ok a → o ≡ some a
given-some none e a h = cc
given-some (some b) e a h = cc

module _ (decode : Bytes → Option Config) (fs : FileSystem) (home path : Bytes) (cfg : Config) where
  load_sound : load decode fs home path ≡ ok cfg → Loads decode fs home path cfg
  unfolding load parse
  load_sound e = go (is_empty chosen) refl e
    where
      chosen : Bytes
      chosen = chosen_path fs home path

      go :
          (b : Bool)
          → is_empty chosen ≡ b
          → load decode fs home path ≡ ok cfg
          → Loads decode fs home path cfg
      go true p h = cc (rw p at h)
      go false p h =
          let (_, permitted, r1) = >>=-eq-ok _ _ cfg (rw p at h) in
          let (content, read, r2) = >>=-eq-ok _ _ cfg r1 in
          let (c, decoded, r3) = >>=-eq-ok _ _ cfg r2 in
          let (_, valid, r4) = >>=-eq-ok _ _ cfg r3 in
          let same : c ≡ cfg = cc in
          record {
            file = chosen;
            content = content;
            chosen = chosen_path-IsChosen fs home path p;
            named = p;
            permitted = permitted;
            read = given-some _ _ _ read;
            decoded = given-some _ _ _ decoded ∙ ap some same;
            valid = subst IsValid same ((validate_iff c).0 valid);
          }

  load_complete : Loads decode fs home path cfg → load decode fs home path ≡ ok cfg
  unfolding load parse
  load_complete l =
      rw
        (
          IsChosen-chosen_path fs home path l.file l.chosen,
          l.named,
          l.permitted,
          l.read,
          l.decoded,
          (validate_iff cfg).1 l.valid,
        )
        refl

  -- `Load` returns a configuration exactly if the file it chose (the one named, or else the
  -- first search path that exists) has permitted access, and its content decodes to that
  -- configuration, which is valid.
  pub load_iff : (load decode fs home path ≡ ok cfg) ↔ Loads decode fs home path cfg
  load_iff = (load_sound, load_complete)
