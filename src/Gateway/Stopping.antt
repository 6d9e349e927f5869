-- ===== src/Gateway/Stopping.antt =====
-- What the gateway leaves behind when it stops.
use mathlib.Core.List.{Permᴰ}
use credential_gateway.Common.{
  ◌≡◌, ◌⊎◌, arith, refl, sym, ap, ap₂, ◌∙◌, Bytes, Bool, List, [], ◌∷◌, map, none, some, inl, inr,
  Bool-cases,
}
use credential_gateway.Common.Texts.{equal_self, equal_iff}
use credential_gateway.Gateway.{
  NamedListener, Proxy, address, Sockets, without, is_bound, Active, active, idle, StartFault,
  start_one, start_all, stop_one, stop_all, has_upstream,
}

without-without :
    (a b : Bytes) (bs : List Bytes) → without a (without b bs) ≡ without b (without a bs)
without-without a b [] = refl
without-without a b (c ∷ bs) =
    ground (arith, without-without a b bs, equal_iff a c, equal_iff b c, equal_iff a b)

-- Two listeners stop in either order.
stop_one-stop_one :
    (a b : Active) (s : Sockets) → stop_one a (stop_one b s) ≡ stop_one b (stop_one a s)
unfolding stop_one
stop_one-stop_one a b s = elim (Bool-cases a.listening) [
  | inr e ↦ rw e refl
  | inl e ↦ elim (Bool-cases b.listening) [
    | inr k ↦ rw k refl
    | inl k ↦
        rw (e, k)
          (ap (λ (bs : List Bytes). record s { bound = bs })
            (without-without (address (a.named.proxy)) (address (b.named.proxy)) s.bound))
  ]
]

-- All of them do, in any order.
stop_all-Perm :
    {as_ bs : List Active} → Permᴰ as_ bs → (s : Sockets) → stop_all as_ s ≡ stop_all bs s
unfolding stop_all
stop_all-Perm Permᴰ.nil s = refl
stop_all-Perm (Permᴰ.cons {l₁ = l₁} {l₂ = l₂} e p) s =
    stop_all-Perm p _ ∙ ap (λ a. stop_all l₂ (stop_one a s)) e
stop_all-Perm (Permᴰ.swap {a} {b} {l = l} e k) s =
    ap (stop_all l) (stop_one-stop_one b a s ∙ ap₂ (λ x y. stop_one x (stop_one y s)) e k)
stop_all-Perm (Permᴰ.trans p q) s = stop_all-Perm p s ∙ stop_all-Perm q s

-- The first to stop may as well be the last.
stop_all-stop_one :
    (a : Active) (as_ : List Active) (s : Sockets)
    → stop_all as_ (stop_one a s) ≡ stop_one a (stop_all as_ s)
unfolding stop_all
stop_all-stop_one a [] s = refl
stop_all-stop_one a (b ∷ as_) s =
    ap (stop_all as_) (stop_one-stop_one b a s) ∙ stop_all-stop_one a as_ (stop_one b s)

stop_all-idle : (ns : List NamedListener) (s : Sockets) → stop_all (map idle ns) s ≡ s
unfolding stop_all
stop_all-idle [] s = refl
stop_all-idle (n ∷ ns) s = stop_all-idle ns s

-- A proxy that started has bound its address; one that did not has bound nothing.
start_one_cases :
    (url_parses : Bytes → Bool) (p : Proxy) (s : Sockets)
    → ((e : StartFault) × (start_one url_parses p s ≡ (some e, s)))
      ⊎ (start_one url_parses p s ≡ (none, record s { bound = address p ∷ s.bound }))
unfolding start_one
start_one_cases url_parses p s = elim (Bool-cases (has_upstream url_parses p)) [
  | inr e ↦ rw e (inl (_, refl))
  | inl e ↦ rw e (elim (Bool-cases (s.available (address p))) [
    | inr k ↦ rw k (inl (_, refl))
    | inl k ↦ rw k (elim (Bool-cases (is_bound s.clashes (address p) s.bound)) [
      | inl l ↦ rw l (inl (_, refl))
      | inr l ↦ rw l (inr refl)
    ])
  ])
]

stop_one-active :
    (n : NamedListener) (s : Sockets)
    → stop_one (active n) (record s { bound = address (n.proxy) ∷ s.bound }) ≡ s
unfolding stop_one
stop_one-active n s = rw (equal_self (address (n.proxy))) refl

stop_all_cons :
    (a : Active) (as_ : List Active) (s : Sockets)
    → stop_all (a ∷ as_) s ≡ stop_one a (stop_all as_ s)
unfolding stop_all
stop_all_cons a as_ s = stop_all-stop_one a as_ s

-- Stopping what was started, in the order of the start.
stop_all-start_all :
    (url_parses : Bytes → Bool) (ns : List NamedListener) (s : Sockets)
    → stop_all (start_all url_parses ns s).1.0 (start_all url_parses ns s).1.1 ≡ s
unfolding start_all
stop_all-start_all url_parses [] s = unfold stop_all in refl
stop_all-start_all url_parses (n ∷ ns) s = elim (start_one_cases url_parses (n.proxy) s) [
  | inl (e, p) ↦ rw p (stop_all-idle (n ∷ ns) s)
  | inr p ↦ rw p (
      stop_all_cons (active n) (start_all url_parses ns _).1.0 _
      ∙ ap (stop_one (active n)) (stop_all-start_all url_parses ns _)
      ∙ stop_one-active n s)
]

-- Whether `Start` brought up every listener or gave up at one, and in whatever order the
-- goroutines of `Stop` run, the gateway leaves the sockets as it found them.
pub stop_all-Perm_start_all :
    (url_parses : Bytes → Bool) (ns : List NamedListener) (s : Sockets) (order : List Active)
    → Permᴰ (start_all url_parses ns s).1.0 order
    → stop_all order (start_all url_parses ns s).1.1 ≡ s
stop_all-Perm_start_all url_parses ns s order p =
    sym (stop_all-Perm p (start_all url_parses ns s).1.1) ∙ stop_all-start_all url_parses ns s
