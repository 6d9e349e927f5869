-- ===== src/Redis/Auth/Opens.antt =====
-- When `discardClientAuth` takes bytes off the client's stream.
use credential_gateway.Common.{
  ℕ, ◌≡◌, ◌⊎◌, refl, sym, ap, ◌∙◌, Bytes, Bool, true, ◌&&◌, ◌||◌, [], ◌++◌, length, take, ltb, leb,
  ◌==◌, append_assoc, append-nil, take-append-drop, Option, none, some, Option-cases, get_elem?,
  inl, inr, Bool-cases,
}
use credential_gateway.Common.Texts.{codes, equal}
use credential_gateway.Net.Exit.{Exit, done, failed, panicked, or_panic}
use credential_gateway.Net.Exit.Action.{Action, lift, continue, ◌>>=◌}
use credential_gateway.Net.Conn.{Conn, write}
use credential_gateway.Net.Conn.Roles.{Reads, Reads-read_full}
use credential_gateway.Net.Reader.{line_end, line_direct, attempt, direct_source}
use credential_gateway.Redis.Auth.{
  equal_fold, make_length, scan_length, trim_line, ok_reply, consume_array_auth,
  consume_inline_auth, array_command, inline_test, if_peeked, array_form, inline_form, opening,
  discard_client_auth,
}

-- `AUTH` on one line, in any case, and as an array of two strings.
abbrev pub opens_inline : Bytes → Bool
opens_inline s = equal_fold (take 4 s) (codes "AUTH")

abbrev pub opens_array : Bytes → Bool
opens_array s = equal (take 4 s) (codes "*2\r\n") && array_command (take 13 s)

abbrev pub OpensAuth : Bytes → Type 0
OpensAuth s = (opens_array s ≡ true) ⊎ (opens_inline s ≡ true)

-- However a call ends, what it took was at the front of the stream.
pub record Eats {A : Type 0} (m : Action Conn A) : Type 0 where
  pub at : (c : Conn) → (x : Bytes) × (c.inbound ≡ x ++ (m c).1.inbound)

module _ {A B : Type 0} where
  continue-Eats :
      (c : Conn) (o : Exit A × Conn) (f : A → Action Conn B)
      → (x : Bytes) × (c.inbound ≡ x ++ o.1.inbound)
      → ((a : A) → Eats (f a))
      → (x : Bytes) × (c.inbound ≡ x ++ (continue o.0 f o.1).1.inbound)
  continue-Eats c (done a, d) f (x, p) k =
      let (y, q) = (k a).at d in (x ++ y, p ∙ ap (λ s. x ++ s) q ∙ sym (append_assoc x y _))
  continue-Eats c (failed e, d) f h k = h
  continue-Eats c (panicked, d) f h k = h

  Eats-bind :
      (m : Action Conn A) (f : A → Action Conn B) → Eats m → ((a : A) → Eats (f a)) → Eats (m >>= f)
  Eats-bind m f h k = record { at = λ c. continue-Eats c (m c) f (h.at c) k }

Eats-lift : {A : Type 0} (o : Exit A) → Eats (lift o)
Eats-lift o = record { at = λ c. ([], refl) }

Eats-Reads : {A : Type 0} (m : Action Conn A) → Reads m → Eats m
Eats-Reads m r = record { at = λ c. let o = r.at c in (o.consumed, o.split) }

Eats-line : Eats (line_direct [])
Eats-line = record {
  at = λ c. elim (Option-cases (line_end c.inbound)) [
    | inl e ↦ rw e (c.inbound, sym (append-nil c.inbound))
    | inr (k, e) ↦ rw e (take k c.inbound, sym (take-append-drop k c.inbound))
  ];
}

Eats-write : (bs : Bytes) → Eats (write bs)
unfolding write
Eats-write bs = record {
  at = λ c. elim (Bool-cases (leb (length bs) c.capacity)) [
    | inl e ↦ rw e ([], refl)
    | inr e ↦ rw e ([], refl)
  ];
}

module _ (max_alloc : ℕ) where
  array-Eats : Eats (consume_array_auth max_alloc direct_source)
  unfolding consume_array_auth direct_source
  array-Eats = Eats-bind _ _ Eats-line λ _. Eats-bind _ _ Eats-line λ _.
      Eats-bind _ _ Eats-line λ _. Eats-bind _ _ Eats-line λ line.
        Eats-bind _ _ (Eats-lift (make_length max_alloc (scan_length (trim_line line))))
          λ n. Eats-bind _ _ (Eats-Reads _ (Reads-read_full n)) λ _. Eats-write ok_reply

  inline-Eats : Eats (consume_inline_auth max_alloc direct_source)
  unfolding consume_inline_auth direct_source
  inline-Eats = Eats-bind _ _ Eats-line λ _. Eats-write ok_reply

  module _ (O : Type 0) where
    -- Something may have been taken only under the condition.
    abbrev Skips : Conn → Conn → Type 0
    Skips c d = (x : Bytes) × ((x ≡ []) ⊎ O) × (c.inbound ≡ x ++ d.inbound)

    Skips-none : (c : Conn) → Skips c c
    Skips-none c = ([], inl refl, refl)

    Skips-some : (m : Action Conn (Unit {0})) (c : Conn) → Eats m → O → Skips c (m c).1
    Skips-some m c h o = let (x, p) = h.at c in (x, inr o, p)

    inline_test-Skips :
        (o : Option ℕ) (c : Conn)
        → O
        → Skips c ((lift (or_panic o) >>= inline_test max_alloc direct_source) c).1
    inline_test-Skips none c o = Skips-none c
    inline_test-Skips (some b) c o = elim (Bool-cases (b == b' ' || (b == b'\r' || b == b'\n'))) [
      | inl e ↦ rw e (Skips-some _ c inline-Eats o)
      | inr e ↦ rw e (Skips-none c)
    ]

    inline-Skips :
        (c : Conn)
        → O
        → Skips c
            ((attempt (direct_source.peek 5)
                >>= if_peeked max_alloc direct_source 0 (inline_form max_alloc direct_source))
              c).1
    unfolding direct_source
    inline-Skips c o = elim (Bool-cases (leb 5 (length c.inbound))) [
      | inr e ↦ rw e (Skips-none c)
      | inl e ↦ rw e (elim (Bool-cases (ltb (length (take 5 c.inbound)) 0)) [
        | inl short ↦ rw short (Skips-none c)
        | inr long ↦ rw long (inline_test-Skips (get_elem? (take 5 c.inbound) 4) c o)
      ])
    ]

    array-Skips :
        (c : Conn)
        → (array_command (take 13 c.inbound) ≡ true → O)
        → Skips c
            ((attempt (direct_source.peek 13)
                >>= if_peeked max_alloc direct_source 13 (array_form max_alloc direct_source))
              c).1
    unfolding direct_source
    array-Skips c k = elim (Bool-cases (leb 13 (length c.inbound))) [
      | inr e ↦ rw e (Skips-none c)
      | inl e ↦ rw e (elim (Bool-cases (ltb (length (take 13 c.inbound)) 13)) [
        | inl short ↦ rw short (Skips-none c)
        | inr long ↦ rw long (elim (Bool-cases (array_command (take 13 c.inbound))) [
          | inl q ↦ rw q (Skips-some _ c array-Eats (k q))
          | inr q ↦ rw q (Skips-none c)
        ])
      ])
    ]

    opening-Skips :
        (c : Conn)
        → (equal (take 4 c.inbound) (codes "*2\r\n") ≡ true
            → array_command (take 13 c.inbound) ≡ true
            → O)
        → (opens_inline c.inbound ≡ true → O)
        → Skips c (opening max_alloc direct_source (take 4 c.inbound) c).1
    opening-Skips c k j = elim (Bool-cases (equal (take 4 c.inbound) (codes "*2\r\n"))) [
      | inl p ↦ rw p (array-Skips c (k p))
      | inr p ↦ rw p (elim (Bool-cases (opens_inline c.inbound)) [
        | inl q ↦ rw q (inline-Skips c (j q))
        | inr q ↦ rw q (Skips-none c)
      ])
    ]

    discard-Skips :
        (c : Conn)
        → (equal (take 4 c.inbound) (codes "*2\r\n") ≡ true
            → array_command (take 13 c.inbound) ≡ true
            → O)
        → (opens_inline c.inbound ≡ true → O)
        → Skips c (discard_client_auth max_alloc direct_source c).1
    unfolding discard_client_auth direct_source
    discard-Skips c k j = elim (Bool-cases (leb 4 (length c.inbound))) [
      | inr e ↦ rw e (Skips-none c)
      | inl e ↦ rw e (elim (Bool-cases (ltb (length (take 4 c.inbound)) 4)) [
        | inl short ↦ rw short (Skips-none c)
        | inr long ↦ rw long (opening-Skips c k j)
      ])
    ]

  -- However it ends, `discard_client_auth` takes nothing off the stream or a front part of it,
  -- and a part only of a stream that opens with an AUTH command.
  pub discard_client_auth-Skips :
      (c : Conn)
      → (x : Bytes) × ((x ≡ []) ⊎ OpensAuth c.inbound)
        × (c.inbound ≡ x ++ (discard_client_auth max_alloc direct_source c).1.inbound)
  discard_client_auth-Skips c =
      discard-Skips (OpensAuth c.inbound) c (λ p q. inl (rw p q)) (λ q. inr q)
