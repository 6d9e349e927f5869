-- ===== src/Net/Conn/Roles.antt =====
-- Calls that only read a connection, and calls that write given bytes to it.
use credential_gateway.Common.{
  ℕ, ◌≡◌, refl, sym, ap, ◌∙◌, Bytes, [], ◌++◌, length, take, drop, leb, min, max, append-nil,
  append_assoc, take-append-drop, inl, inr, Bool-cases,
}
use credential_gateway.Common.Texts.{is_empty}
use credential_gateway.Net.Exit.{Exit, done, failed, panicked}
use credential_gateway.Net.Exit.Action.{Action, pure, lift, continue, ◌>>=◌, ◌>>◌}
use credential_gateway.Net.Exit.Ensures.{Holds}
use credential_gateway.Net.Conn.{Conn, read_full, read_some, write}

-- From `c` to `d` the stream was read on, and nothing was sent.
pub record ReadOn (c d : Conn) : Type 0 where
  pub consumed : Bytes
  pub split : c.inbound ≡ consumed ++ d.inbound
  pub silent : d.sent ≡ c.sent

pub ReadOn-refl : (c : Conn) → ReadOn c c
ReadOn-refl c = record { consumed = []; split = refl; silent = refl }

pub ReadOn-trans : {b c d : Conn} → ReadOn b c → ReadOn c d → ReadOn b d
ReadOn-trans f g = record {
  consumed = f.consumed ++ g.consumed;
  split = f.split ∙ ap (λ s. f.consumed ++ s) g.split ∙ sym (append_assoc f.consumed g.consumed _);
  silent = g.silent ∙ f.silent;
}

pub record Reads {A : Type 0} (m : Action Conn A) : Type 0 where
  pub at : (c : Conn) → ReadOn c (m c).1

pub Reads-pure : {A : Type 0} (a : A) → Reads (pure a)
Reads-pure a = record { at = λ c. ReadOn-refl c }

pub Reads-lift : {A : Type 0} (r : Exit A) → Reads (lift r)
Reads-lift r = record { at = λ c. ReadOn-refl c }

module _ {A B : Type 0} where
  continue-ReadOn :
      (c : Conn) (o : Exit A × Conn) (f : A → Action Conn B)
      → ReadOn c o.1
      → ((a : A) → Reads (f a))
      → ReadOn c (continue o.0 f o.1).1
  continue-ReadOn c (done a, d) f r k = ReadOn-trans r ((k a).at d)
  continue-ReadOn c (failed e, d) f r k = r
  continue-ReadOn c (panicked, d) f r k = r

  pub Reads-bind :
      (m : Action Conn A) (f : A → Action Conn B)
      → Reads m
      → ((a : A) → Reads (f a))
      → Reads (m >>= f)
  Reads-bind m f r k = record { at = λ c. continue-ReadOn c (m c) f (r.at c) k }

pub Reads-read_full : (n : ℕ) → Reads (read_full n)
unfolding read_full
Reads-read_full n = record {
  at = λ c. elim (Bool-cases (leb n (length c.inbound))) [
    | inl e ↦ rw e (record {
      consumed = take n c.inbound;
      split = sym (take-append-drop n c.inbound);
      silent = refl;
    })
    | inr e ↦
        rw e (record { consumed = c.inbound; split = sym (append-nil c.inbound); silent = refl })
  ];
}

pub Reads-read_some : (n : ℕ) → Reads (read_some n)
unfolding read_some
Reads-read_some n = record {
  at = λ c. elim (Bool-cases (is_empty c.inbound)) [
    | inl e ↦ rw e (ReadOn-refl c)
    | inr e ↦ rw e (record {
      consumed = take (min n (max 1 c.chunk)) c.inbound;
      split = sym (take-append-drop (min n (max 1 c.chunk)) c.inbound);
      silent = refl;
    })
  ];
}

-- From `c` to `d` the bytes `bs` were sent, and nothing was read.
pub record Sent (bs : Bytes) (c d : Conn) : Type 0 where
  pub appended : d.sent ≡ c.sent ++ bs
  pub unread : d.inbound ≡ c.inbound

-- Only a part of `bs` was sent.
pub record Cut (bs : Bytes) (c d : Conn) : Type 0 where
  pub part : Bytes
  pub rest : Bytes
  pub split : bs ≡ part ++ rest
  pub sent : Sent part c d

pub record Writes (bs : Bytes) (m : Action Conn (Unit {0})) : Type 0 where
  pub at : (c : Conn) → Holds (λ _. Sent bs c) (Cut bs c) (m c)

pub Writes-write : (bs : Bytes) → Writes bs (write bs)
unfolding write
Writes-write bs = record {
  at = λ c. elim (Bool-cases (leb (length bs) c.capacity)) [
    | inl e ↦ rw e (record { appended = refl; unread = refl })
    | inr e ↦ rw e (record {
      part = take c.capacity bs;
      rest = drop c.capacity bs;
      split = sym (take-append-drop c.capacity bs);
      sent = record { appended = refl; unread = refl };
    })
  ];
}

-- A call that writes nothing.
pub Writes-pure : Writes [] (pure tt)
Writes-pure = record { at = λ c. record { appended = sym (append-nil c.sent); unread = refl } }

Sent-trans : (xs ys : Bytes) {b c d : Conn} → Sent xs b c → Sent ys c d → Sent (xs ++ ys) b d
Sent-trans xs ys {b} f g = record {
  appended = g.appended ∙ ap (λ s. s ++ ys) f.appended ∙ append_assoc b.sent xs ys;
  unread = g.unread ∙ f.unread;
}

module _ (xs ys : Bytes) where
  Cut-first : {c d : Conn} → Cut xs c d → Cut (xs ++ ys) c d
  Cut-first f = record {
    part = f.part;
    rest = f.rest ++ ys;
    split = ap (λ s. s ++ ys) f.split ∙ append_assoc f.part f.rest ys;
    sent = f.sent;
  }

  Cut-second : {b c d : Conn} → Sent xs b c → Cut ys c d → Cut (xs ++ ys) b d
  Cut-second f g = record {
    part = xs ++ g.part;
    rest = g.rest;
    split = ap (λ s. xs ++ s) g.split ∙ sym (append_assoc xs g.part g.rest);
    sent = Sent-trans xs g.part f g.sent;
  }

  after_first :
      {b c : Conn} (o : Exit (Unit {0}) × Conn)
      → Sent xs b c
      → Holds (λ _. Sent ys c) (Cut ys c) o
      → Holds (λ _. Sent (xs ++ ys) b) (Cut (xs ++ ys) b) o
  after_first (done u, d) f g = Sent-trans xs ys f g
  after_first (failed e, d) f g = Cut-second f g
  after_first (panicked, d) f g = Cut-second f g

  first_then :
      (b : Conn) (o : Exit (Unit {0}) × Conn) (n : Action Conn (Unit {0}))
      → Holds (λ _. Sent xs b) (Cut xs b) o
      → Writes ys n
      → Holds (λ _. Sent (xs ++ ys) b) (Cut (xs ++ ys) b) (continue o.0 (λ _. n) o.1)
  first_then b (done u, c) n f g = after_first (n c) f (g.at c)
  first_then b (failed e, c) n f g = Cut-first f
  first_then b (panicked, c) n f g = Cut-first f

  -- Two writes in a row write the bytes of both.
  pub Writes-append :
      (m n : Action Conn (Unit {0})) → Writes xs m → Writes ys n → Writes (xs ++ ys) (m >> n)
  Writes-append m n f g = record { at = λ c. first_then c (m c) n (f.at c) g }
