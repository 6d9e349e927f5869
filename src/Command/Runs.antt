-- ===== src/Command/Runs.antt =====
-- When the command serves, and what `-validate` tells.
use mathlib.Core.List.{Permᴰ}
use credential_gateway.Common.{
  ◌≡◌, ◌↔◌, refl, sym, ap, ap₂, ◌∙◌, Bytes, Bool, true, false, List, Option, none, some, inl, inr,
  Bool-cases,
}
use credential_gateway.Config.Types.{Config, Result, ok, err}
use credential_gateway.Config.Load.{FileSystem, load}
use credential_gateway.Config.Load.Loads.{Loads, load_iff}
use credential_gateway.Gateway.{new, Sockets, Active, Started, start_all, stop_all}
use credential_gateway.Gateway.Starting.{CanStartAll, start_all_iff}
use credential_gateway.Gateway.Stopping.{stop_all-Perm_start_all}
use credential_gateway.Command.{
  Level, resolve_log_level, Flags, exit, Run, after_start, with_level, run,
}

module _ (to_lower : Bytes → Bytes) (decode : Bytes → Option Config) (url_parses : Bytes → Bool)
    (stop_order : List Active → List Active) (fs : FileSystem) (home : Bytes) (s : Sockets)
    (flags : Flags) where
  abbrev main : Run
  main = run to_lower decode url_parses stop_order flags fs home s

  abbrev loads : Result Config
  loads = load decode fs home flags.config

  abbrev level : Option Level
  level = resolve_log_level to_lower flags.log_level flags.env_level

  -- A level, and a configuration that loads.
  pub record Ready : Type 0 where
    pub log_level : Level
    pub config : Config
    pub level_given : level ≡ some log_level
    pub loaded : Loads decode fs home flags.config config

  ready_of :
      (o : Option Level) (r : Result Config)
      → level ≡ o
      → loads ≡ r
      → (with_level to_lower decode url_parses stop_order true s r o).status ≡ exit 0
      → Ready
  ready_of none r e k h = cc
  ready_of (some l) (err x) e k h = cc
  ready_of (some l) (ok cfg) e k h = record {
    log_level = l;
    config = cfg;
    level_given = e;
    loaded = (load_iff decode fs home flags.config cfg).0 k;
  }

  -- With `-validate`, and no `-version`, the command exits with 0 exactly if the log level is one
  -- and the configuration loads; and it binds nothing in any case.
  pub run_validates :
      flags.version ≡ false
      → flags.validate ≡ true
      → ((main.status ≡ exit 0) ↔ Ready) × (main.left ≡ s)
  unfolding run
  run_validates v c = (
    (
      λ h. ready_of level loads refl refl (rw (v, c) at h),
      λ r.
          rw (v, c, r.level_given, (load_iff decode fs home flags.config r.config).1 r.loaded) refl,
    ),
    rw (v, c) (left_of level loads),
  )
    where
      left_of :
          (o : Option Level) (r : Result Config)
          → (with_level to_lower decode url_parses stop_order true s r o).left ≡ s
      left_of none r = refl
      left_of (some l) (err x) = refl
      left_of (some l) (ok cfg) = refl

  -- Every listener of the configuration can start, and none clashes with one before it.
  pub record CanServe : Type 0 where
    pub ready : Ready
    pub startable : CanStartAll url_parses s (new ready.config)

  started_serving :
      (o : Started) (t : Sockets)
      → (after_start to_lower decode url_parses stop_order o).serving ≡ some t
      → o.0 ≡ none
  started_serving (none, (as_, s')) t h = refl
  started_serving (some e, (as_, s')) t h = cc

  serving_started :
      (o : Started)
      → o.0 ≡ none
      → (t : Sockets) × ((after_start to_lower decode url_parses stop_order o).serving ≡ some t)
  serving_started (none, (as_, s')) h = (s', refl)
  serving_started (some e, (as_, s')) h = cc

  can_serve :
      (o : Option Level) (r : Result Config) (t : Sockets)
      → level ≡ o
      → loads ≡ r
      → (with_level to_lower decode url_parses stop_order false s r o).serving ≡ some t
      → CanServe
  can_serve none r t e k h = cc
  can_serve (some l) (err x) t e k h = cc
  can_serve (some l) (ok cfg) t e k h =
      let loaded = (load_iff decode fs home flags.config cfg).0 k in
      record {
        ready = record { log_level = l; config = cfg; level_given = e; loaded = loaded };
        startable =
            (start_all_iff url_parses (new cfg) s).0
              (started_serving (start_all url_parses (new cfg) s) t h);
      }

  -- Where the flags ask neither for the version nor for a check only, it comes to serve exactly if
  -- the log level is one, the configuration loads, each of its services can start by itself, and
  -- no service's address clashes, in the system's view, with that of one started before it.
  pub run_serves_iff :
      flags.version ≡ false
      → flags.validate ≡ false
      → ((t : Sockets) × (main.serving ≡ some t)) ↔ CanServe
  unfolding run
  run_serves_iff v c = (
    λ (t, h). can_serve level loads t refl refl (rw (v, c) at h),
    λ k.
        let cfg = k.ready.config in
        rw (v, c, k.ready.level_given, (load_iff decode fs home flags.config cfg).1 k.ready.loaded)
          (serving_started (start_all url_parses (new cfg) s)
            ((start_all_iff url_parses (new cfg) s).1 k.startable)),
  )

  left_after :
      (cfg : Config) (o : Started) (t : Sockets)
      → ((as_ : List Active) → Permᴰ as_ (stop_order as_))
      → start_all url_parses (new cfg) s ≡ o
      → (after_start to_lower decode url_parses stop_order o).serving ≡ some t
      → (after_start to_lower decode url_parses stop_order o).left ≡ s
  left_after cfg (none, (as_, s')) t p e h =
      ap₂ (λ xs y. stop_all (stop_order xs) y) (ap (λ q. q.1.0) (sym e)) (ap (λ q. q.1.1) (sym e))
      ∙ stop_all-Perm_start_all url_parses (new cfg) s _ (p _)
  left_after cfg (some x, (as_, s')) t p e h = cc

  -- A command that has served leaves the sockets as it found them, in whatever order its listeners
  -- stop.
  pub run_cleans :
      (t : Sockets)
      → ((as_ : List Active) → Permᴰ as_ (stop_order as_))
      → main.serving ≡ some t
      → main.left ≡ s
  unfolding run
  run_cleans t p h = elim (Bool-cases flags.version) [
    | inl v ↦ let q : none ≡ some t = rw v at h in cc
    | inr v ↦ rw v (left_of flags.validate level loads refl (rw v at h))
  ]
    where
      left_of :
          (b : Bool) (o : Option Level) (r : Result Config)
          → loads ≡ r
          → (with_level to_lower decode url_parses stop_order b s r o).serving ≡ some t
          → (with_level to_lower decode url_parses stop_order b s r o).left ≡ s
      left_of b none r k h' = cc
      left_of b (some l) (err x) k h' = cc
      left_of true (some l) (ok cfg) k h' = refl
      left_of false (some l) (ok cfg) k h' =
          left_after cfg (start_all url_parses (new cfg) s) t p refl h'
