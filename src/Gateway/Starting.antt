-- ===== src/Gateway/Starting.antt =====
-- When the gateway starts, and on which addresses.
use credential_gateway.Common.{
  ◌≡◌, ◌↔◌, refl, sym, ◌∙◌, Bytes, Bool, true, false, List, [], ◌∷◌, map, Option, none, some, All,
  inl, inr, Bool-cases,
}
use credential_gateway.Gateway.{
  NamedListener, Proxy, address, Sockets, Started, StartFault, bad_upstream, listen_failed,
  is_bound, started, has_upstream, start_one, start_all,
}

abbrev pub addresses : List NamedListener → List Bytes
addresses = map (λ n. address (n.proxy))

-- The address clashes with none that is bound.
abbrev pub Free : (Bytes → Bytes → Bool) → Bytes → List Bytes → Type 0
Free clashes a = All (λ b. clashes a b ≡ false)

-- No address clashes with one before it.
abbrev pub Apart : (Bytes → Bytes → Bool) → List Bytes → Type 0
Apart clashes [] = Unit {0}
Apart clashes (a ∷ as_) = All (λ b. clashes b a ≡ false) as_ × Apart clashes as_

is_bound_iff :
    (clashes : Bytes → Bytes → Bool) (a : Bytes) (bs : List Bytes)
    → (is_bound clashes a bs ≡ false) ↔ Free clashes a bs
is_bound_iff clashes a [] = (λ h. tt, λ h. refl)
is_bound_iff clashes a (b ∷ bs) =
    let later = is_bound_iff clashes a bs in
    elim (Bool-cases (clashes a b)) [
      | inl e ↦ (
        λ h. let p : true ≡ false = rw e at h in cc,
        λ (k, _). let p : true ≡ false = sym e ∙ k in cc,
      )
      | inr e ↦ (λ h. (e, later.0 (rw e at h)), λ (_, k). rw e (later.1 k))
    ]

module _ (url_parses : Bytes → Bool) where
  -- The upstream's URL parses, the system lets the process bind the address, and it clashes with
  -- none that is bound.
  pub record CanStart (s : Sockets) (p : Proxy) : Type 0 where
    pub upstream : has_upstream url_parses p ≡ true
    pub available : s.available (address p) ≡ true
    pub unbound : Free s.clashes (address p) s.bound

  -- Each can start by itself, and none clashes with one that starts before it.
  pub record CanStartAll (s : Sockets) (ns : List NamedListener) : Type 0 where
    pub each : All (λ n. CanStart s (NamedListener.proxy n)) ns
    pub distinct : Apart s.clashes (addresses ns)

  -- After a proxy has started, its address is bound.
  abbrev pub with_bound : Bytes → Sockets → Sockets
  with_bound a s = record s { bound = a ∷ s.bound }

  pub start_one_can :
      (p : Proxy) (s : Sockets)
      → CanStart s p
      → start_one url_parses p s ≡ (none, with_bound (address p) s)
  unfolding start_one
  start_one_can p s h =
      rw (h.upstream, h.available, (is_bound_iff s.clashes (address p) s.bound).1 h.unbound)

  pub start_one_done :
      (p : Proxy) (s : Sockets) → (start_one url_parses p s).0 ≡ none → CanStart s p
  unfolding start_one
  start_one_done p s h = elim (Bool-cases (has_upstream url_parses p)) [
    | inr e ↦ let q : some (bad_upstream (address p)) ≡ none = rw e at h in cc
    | inl e ↦ elim (Bool-cases (s.available (address p))) [
      | inr k ↦ let q : some (listen_failed (address p)) ≡ none = rw (e, k) at h in cc
      | inl k ↦ elim (Bool-cases (is_bound s.clashes (address p) s.bound)) [
        | inl l ↦ let q : some (listen_failed (address p)) ≡ none = rw (e, k, l) at h in cc
        | inr l ↦ record {
          upstream = e;
          available = k;
          unbound = (is_bound_iff s.clashes (address p) s.bound).0 l;
        }
      ]
    ]
  ]

  -- What is left to start does not clash with the address that was bound.
  can_later :
      (a : Bytes) (s : Sockets) (ns : List NamedListener)
      → CanStartAll s ns
      → All (λ b. s.clashes b a ≡ false) (addresses ns)
      → CanStartAll (with_bound a s) ns
  can_later a s ns h k = record { each = go ns h.each k; distinct = h.distinct }
    where
      go :
          (ns : List NamedListener)
          → All (λ n. CanStart s (NamedListener.proxy n)) ns
          → All (λ b. s.clashes b a ≡ false) (addresses ns)
          → All (λ n. CanStart (with_bound a s) (NamedListener.proxy n)) ns
      go [] h k = tt
      go (n ∷ ns) (c, h) (k, l) = (
        record { upstream = c.upstream; available = c.available; unbound = (k, c.unbound) },
        go ns h l,
      )

  could_earlier :
      (a : Bytes) (s : Sockets) (ns : List NamedListener)
      → All (λ n. CanStart (with_bound a s) (NamedListener.proxy n)) ns
      → All (λ n. CanStart s (NamedListener.proxy n)) ns
        × All (λ b. s.clashes b a ≡ false) (addresses ns)
  could_earlier a s [] h = (tt, tt)
  could_earlier a s (n ∷ ns) (c, h) =
      let (each, apart) = could_earlier a s ns h in
      (
        (record { upstream = c.upstream; available = c.available; unbound = c.unbound.1 }, each),
        (c.unbound.0, apart),
      )

  start_all_can :
      (ns : List NamedListener) (s : Sockets)
      → CanStartAll s ns
      → (start_all url_parses ns s).0 ≡ none
  unfolding start_all
  start_all_can [] s h = refl
  start_all_can (n ∷ ns) s h = rw (start_one_can (n.proxy) s (h.each.0)) (
      start_all_can ns (with_bound (address (n.proxy)) s)
        (can_later _ s ns (record { each = h.each.1; distinct = h.distinct.1 }) (h.distinct.0)))

  started_done :
      (n : NamedListener) (ns : List NamedListener) (o : Option StartFault × Sockets)
      (next : Sockets → Started)
      → (started n ns o next).0 ≡ none
      → (o.0 ≡ none) × ((next o.1).0 ≡ none)
  started_done n ns (none, s) next h = (refl, h)
  started_done n ns (some e, s) next h = cc

  start_all_done :
      (ns : List NamedListener) (s : Sockets)
      → (start_all url_parses ns s).0 ≡ none
      → CanStartAll s ns
  unfolding start_all
  start_all_done [] s h = record { each = tt; distinct = tt }
  start_all_done (n ∷ ns) s h =
      let (one, rest) = started_done n ns (start_one url_parses (n.proxy) s) _ h in
      let c = start_one_done (n.proxy) s one in
      let later =
        start_all_done ns (with_bound (address (n.proxy)) s)
          (rw (start_one_can (n.proxy) s c) at rest) in
      let (each, apart) = could_earlier (address (n.proxy)) s ns later.each in
      record { each = (c, each); distinct = (apart, later.distinct) }

  -- `Start` succeeds exactly if each of the services could start by itself and none clashes with
  -- one before it.
  pub start_all_iff :
      (ns : List NamedListener) (s : Sockets)
      → ((start_all url_parses ns s).0 ≡ none) ↔ CanStartAll s ns
  start_all_iff ns s = (start_all_done ns s, start_all_can ns s)
