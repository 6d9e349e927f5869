-- ===== src/Net/Conn/Takes.antt =====
-- Calls that return what they have read off a connection.
use credential_gateway.Common.{
  Bool, true, false, ℕ, ◌≡◌, refl, sym, ap, ◌∙◌, Bytes, [], ◌++◌, length, take, leb, arith,
  append-nil, append_assoc, take-append-drop, length-take, inl, inr, Bool-cases,
}
use credential_gateway.Net.Exit.{Fault, Exit, done, failed, panicked}
use credential_gateway.Net.Exit.Action.{Action, pure, guard_not, continue, ◌>>=◌}
use credential_gateway.Net.Exit.Ensures.{Holds}
use credential_gateway.Net.Conn.{Conn, read_full}
use credential_gateway.Net.Conn.Roles.{ReadOn, ReadOn-refl, ReadOn-trans, Reads}

-- A call that returns `a` has read the bytes `x` off the stream, with `K a x`.
abbrev pub Took : {A : Type 0} → (A → Bytes → Type 0) → Conn → A → Conn → Type 0
Took K c a d = (x : Bytes) × K a x × (c.inbound ≡ x ++ d.inbound) × (d.sent ≡ c.sent)

pub record Takes {A : Type 0} (K : A → Bytes → Type 0) (m : Action Conn A) : Type 0 where
  pub at : (c : Conn) → Holds (Took K c) (ReadOn c) (m c)

pub Takes-read_full : (n : ℕ) → Takes (λ xs x. (x ≡ xs) × (length xs ≡ n)) (read_full n)
unfolding read_full
Takes-read_full n = record {
  at = λ c. elim (Bool-cases (leb n (length c.inbound))) [
    | inl e ↦ rw e (
      take n c.inbound,
      (refl, ground (arith, length-take n c.inbound)),
      sym (take-append-drop n c.inbound),
      refl,
    )
    | inr e ↦
        rw e (record { consumed = c.inbound; split = sym (append-nil c.inbound); silent = refl })
  ];
}

-- A call that returns `a` with `K a x` for no bytes at all.
pub Takes-pure : {A : Type 0} {K : A → Bytes → Type 0} (a : A) → K a [] → Takes K (pure a)
Takes-pure a k = record { at = λ c. ([], k, refl, refl) }

-- A test reads nothing, and is passed.
pub Takes-guard_not : (b : Bool) (e : Fault) → Takes (λ _ x. (b ≡ false) × (x ≡ [])) (guard_not b e)
Takes-guard_not true e = record { at = λ c. ReadOn-refl c }
Takes-guard_not false e = record { at = λ c. ([], (refl, refl), refl, refl) }

module _ {A B : Type 0} (K : A → Bytes → Type 0) (L : A → B → Bytes → Type 0) where
  -- The bytes of both calls, one behind the other.
  abbrev pub Then : B → Bytes → Type 0
  Then b z = (a : A) × (x : Bytes) × (y : Bytes) × K a x × L a b y × (z ≡ x ++ y)

  Took-Then :
      (c : Conn) (a : A) (d : Conn) (o : Exit B × Conn)
      → Took K c a d
      → Holds (Took (L a) d) (ReadOn d) o
      → Holds (Took Then c) (ReadOn c) o
  Took-Then c a d (done b, e) (x, k, p, q) (y, l, r, s) = (
    x ++ y,
    (a, x, y, k, l, refl),
    p ∙ ap (λ t. x ++ t) r ∙ sym (append_assoc x y e.inbound),
    s ∙ q,
  )
  Took-Then c a d (failed f, e) (x, k, p, q) r =
      ReadOn-trans (record { consumed = x; split = p; silent = q }) r
  Took-Then c a d (panicked, e) (x, k, p, q) r =
      ReadOn-trans (record { consumed = x; split = p; silent = q }) r

  Took-continue :
      (c : Conn) (o : Exit A × Conn) (f : A → Action Conn B)
      → Holds (Took K c) (ReadOn c) o
      → ((a : A) → Takes (L a) (f a))
      → Holds (Took Then c) (ReadOn c) (continue o.0 f o.1)
  Took-continue c (done a, d) f h k = Took-Then c a d (f a d) h ((k a).at d)
  Took-continue c (failed e, d) f h k = h
  Took-continue c (panicked, d) f h k = h

  pub Takes-bind :
      (m : Action Conn A) (f : A → Action Conn B)
      → Takes K m
      → ((a : A) → Takes (L a) (f a))
      → Takes Then (m >>= f)
  Takes-bind m f h k = record { at = λ c. Took-continue c (m c) f (h.at c) k }

module _ {A : Type 0} {K L : A → Bytes → Type 0} (k : (a : A) (x : Bytes) → K a x → L a x) where
  Took-weaker :
      (c : Conn) (o : Exit A × Conn) → Holds (Took K c) (ReadOn c) o → Holds (Took L c) (ReadOn c) o
  Took-weaker c (done a, d) (x, h, p, q) = (x, k a x h, p, q)
  Took-weaker c (failed e, d) h = h
  Took-weaker c (panicked, d) h = h

  pub Takes-weaker : (m : Action Conn A) → Takes K m → Takes L m
  Takes-weaker m h = record { at = λ c. Took-weaker c (m c) (h.at c) }

module _ {A : Type 0} (K : A → Bytes → Type 0) where
  Took-reads : (c : Conn) (o : Exit A × Conn) → Holds (Took K c) (ReadOn c) o → ReadOn c o.1
  Took-reads c (done a, d) (x, h, p, q) = record { consumed = x; split = p; silent = q }
  Took-reads c (failed e, d) h = h
  Took-reads c (panicked, d) h = h

  -- A call that takes bytes is one that only reads.
  pub Takes-Reads : (m : Action Conn A) → Takes K m → Reads m
  Takes-Reads m h = record { at = λ c. Took-reads c (m c) (h.at c) }
