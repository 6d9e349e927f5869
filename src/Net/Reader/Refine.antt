-- ===== src/Net/Reader/Refine.antt =====
-- Programs over a buffered reader and over a connection that do the same.
use credential_gateway.Common.{
  leb, length, inl, inr, Bool-cases, ◌≡◌, refl, ap, ◌∙◌, Bytes, Bool, true, false, if◌then◌else◌,
}
use credential_gateway.Net.Exit.{Exit, done, failed, panicked}
use credential_gateway.Net.Exit.Action.{Action, lift, continue, ◌>>=◌}
use credential_gateway.Net.Conn.{Conn, write}
use credential_gateway.Net.Reader.{Reader, view, seen, Refines, on_conn, attempt, attempted}

module _ {A B : Type 0} where
  seen-continue :
      (o : Exit A × Reader) (p : Exit A × Conn) (f : A → Action Reader B) (g : A → Action Conn B)
      → seen o ≡ p
      → ((a : A) → Refines (f a) (g a))
      → seen (continue o.0 f o.1) ≡ continue p.0 g p.1
  seen-continue (done a, r) p f g e k = (k a).at r ∙ ap (λ q. continue q.0 g q.1) e
  seen-continue (failed x, r) p f g e k = ap (λ q. continue q.0 g q.1) e
  seen-continue (panicked, r) p f g e k = ap (λ q. continue q.0 g q.1) e

  pub Refines-bind :
      (m : Action Reader A) (n : Action Conn A) (f : A → Action Reader B) (g : A → Action Conn B)
      → Refines m n
      → ((a : A) → Refines (f a) (g a))
      → Refines (m >>= f) (n >>= g)
  Refines-bind m n f g h k = record { at = λ r. seen-continue (m r) (n (view r)) f g (h.at r) k }

module _ {A : Type 0} where
  pub Refines-lift : (o : Exit A) → Refines (lift o) (lift o)
  Refines-lift o = record { at = λ r. refl }

  seen-attempt :
      (o : Exit A × Reader) (p : Exit A × Conn) → seen o ≡ p → seen (attempted o) ≡ attempted p
  seen-attempt (done a, r) p e = ap attempted e
  seen-attempt (failed x, r) p e = ap attempted e
  seen-attempt (panicked, r) p e = ap attempted e

  pub Refines-attempt :
      (m : Action Reader A) (n : Action Conn A) → Refines m n → Refines (attempt m) (attempt n)
  Refines-attempt m n h = record { at = λ r. seen-attempt (m r) (n (view r)) (h.at r) }

  pub Refines-if :
      (b : Bool) (m m' : Action Reader A) (n n' : Action Conn A)
      → Refines m n
      → Refines m' n'
      → Refines (if b then m else m') (if b then n else n')
  Refines-if true m m' n n' h k = h
  Refines-if false m m' n n' h k = k

pub put-Refines : (bs : Bytes) → Refines (on_conn (write bs)) (write bs)
unfolding write
put-Refines bs = record {
  at = λ r. elim (Bool-cases (leb (length bs) r.conn.capacity)) [
    | inl e ↦ rw e refl
    | inr e ↦ rw e refl
  ];
}
