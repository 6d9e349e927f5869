-- ===== src/Net/Exit/Fuel.antt =====
-- Calls that do not run out of fuel. `size` counts what is left to read in a state, and a loop that
-- reads in every round needs no more rounds than that.
use credential_gateway.Common.{ℕ, suc, ◌+◌, ◌≤◌, ◌<◌, ◌≢◌, Bool, true, false, arith, if◌then◌else◌}
use credential_gateway.Net.Exit.{Exit, done, failed, panicked, out_of_fuel}
use credential_gateway.Net.Exit.Ends.{Ends}
use credential_gateway.Net.Exit.Action.{Action, pure, lift, continue, ◌>>=◌}

-- After a call that returns, at least `k` less is left than before.
abbrev pub Spent : {S A : Type 0} → (S → ℕ) → ℕ → ℕ → Exit A × S → Type 0
Spent size k before (done a, t) = size t + k ≤ before
Spent size k before (failed e, t) = e ≢ out_of_fuel
Spent size k before (panicked, t) = Unit

pub record Spends {S A : Type 0} (size : S → ℕ) (k : ℕ) (m : Action S A) : Type 0 where
  pub at : (s : S) → Spent size k (size s) (m s)

-- Where fewer than `n` are left the call ends.
pub record EndsBelow {S A : Type 0} (size : S → ℕ) (n : ℕ) (m : Action S A) : Type 0 where
  pub at : (s : S) → size s < n → Ends (m s).0

module _ {S : Type 0} where
  pub Spends-pure : {A : Type 0} {size : S → ℕ} (a : A) → Spends size 0 (pure a)
  Spends-pure a = record { at = λ s. omega arith }

  pub Spends-lift : {A : Type 0} {size : S → ℕ} (r : Exit A) → Ends r → Spends size 0 (lift r)
  Spends-lift (done a) h = record { at = λ s. omega arith }
  Spends-lift (failed e) h = record { at = λ s. h }
  Spends-lift panicked h = record { at = λ s. tt }

  Spent-less :
      {A : Type 0} (size : S → ℕ) (j k : ℕ) (before after : ℕ) (o : Exit A × S)
      → after + j ≤ before
      → Spent size k after o
      → Spent size (j + k) before o
  Spent-less size j k before after (done a, t) l h = omega arith
  Spent-less size j k before after (failed e, t) l h = h
  Spent-less size j k before after (panicked, t) l h = h

  Spent-continue :
      {A B : Type 0} (size : S → ℕ) (j k : ℕ) (before : ℕ) (o : Exit A × S) (f : A → Action S B)
      → Spent size j before o
      → ((a : A) → Spends size k (f a))
      → Spent size (j + k) before (continue o.0 f o.1)
  Spent-continue size j k before (done a, t) f h g =
      Spent-less size j k before (size t) (f a t) h ((g a).at t)
  Spent-continue size j k before (failed e, t) f h g = h
  Spent-continue size j k before (panicked, t) f h g = h

  pub Spends-bind :
      {A B : Type 0} {size : S → ℕ} (j k : ℕ) {m : Action S A} {f : A → Action S B}
      → Spends size j m
      → ((a : A) → Spends size k (f a))
      → Spends size (j + k) (m >>= f)
  Spends-bind {size = size} j k {m} {f} h g = record {
    at = λ s. Spent-continue size j k (size s) (m s) f (h.at s) g;
  }

  Spent-weaker :
      {A : Type 0} (size : S → ℕ) (j k : ℕ) (before : ℕ) (o : Exit A × S)
      → k ≤ j
      → Spent size j before o
      → Spent size k before o
  Spent-weaker size j k before (done a, t) l h = omega arith
  Spent-weaker size j k before (failed e, t) l h = h
  Spent-weaker size j k before (panicked, t) l h = h

  pub Spends-weaker :
      {A : Type 0} {size : S → ℕ} (j k : ℕ) {m : Action S A}
      → k ≤ j
      → Spends size j m
      → Spends size k m
  Spends-weaker {size = size} j k {m} l h = record {
    at = λ s. Spent-weaker size j k (size s) (m s) l (h.at s);
  }

  Spent-Ends :
      {A : Type 0} (size : S → ℕ) (k before : ℕ) (o : Exit A × S) → Spent size k before o → Ends o.0
  Spent-Ends size k before (done a, t) h = tt
  Spent-Ends size k before (failed e, t) h = h
  Spent-Ends size k before (panicked, t) h = tt

  -- A call that needs no fuel ends, however much is left.
  pub Spends-EndsBelow :
      {A : Type 0} {size : S → ℕ} (k n : ℕ) {m : Action S A} → Spends size k m → EndsBelow size n m
  Spends-EndsBelow {size = size} k n {m} h = record {
    at = λ s _. Spent-Ends size k (size s) (m s) (h.at s);
  }

  EndsBelow-continue :
      {A B : Type 0} (size : S → ℕ) (k n before : ℕ) (o : Exit A × S) (f : A → Action S B)
      → before < n + k
      → Spent size k before o
      → ((a : A) → EndsBelow size n (f a))
      → Ends (continue o.0 f o.1).0
  EndsBelow-continue size k n before (done a, t) f l h g = (g a).at t (omega arith)
  EndsBelow-continue size k n before (failed e, t) f l h g = h
  EndsBelow-continue size k n before (panicked, t) f l h g = tt

  pub EndsBelow-bind :
      {A B : Type 0} {size : S → ℕ} (k n : ℕ) {m : Action S A} {f : A → Action S B}
      → Spends size k m
      → ((a : A) → EndsBelow size n (f a))
      → EndsBelow size (n + k) (m >>= f)
  EndsBelow-bind {size = size} k n {m} {f} h g = record {
    at = λ s l. EndsBelow-continue size k n (size s) (m s) f l (h.at s) g;
  }

  -- A call before the rest that spends nothing.
  pub EndsBelow-then :
      {A B : Type 0} {size : S → ℕ} (n : ℕ) {m : Action S A} {f : A → Action S B}
      → Spends size 0 m
      → ((a : A) → EndsBelow size n (f a))
      → EndsBelow size n (m >>= f)
  EndsBelow-then {size = size} n {m} {f} h g = record {
    at = λ s l. EndsBelow-continue size 0 n (size s) (m s) f (omega arith) (h.at s) g;
  }

  pub EndsBelow-if :
      {A : Type 0} {size : S → ℕ} (n : ℕ) (b : Bool) {m k : Action S A}
      → EndsBelow size n m
      → EndsBelow size n k
      → EndsBelow size n (if b then m else k)
  EndsBelow-if n true h g = h
  EndsBelow-if n false h g = g

  -- A loop with one round more than is left.
  pub EndsBelow-counted :
      {A : Type 0} {size : S → ℕ} (n : ℕ) (m : ℕ → Action S A)
      → ((f : ℕ) → EndsBelow size f (m f))
      → EndsBelow size n (λ s. m (suc (size s)) s)
  EndsBelow-counted {size = size} n m h = record {
    at = λ s _. (h (suc (size s))).at s (omega arith);
  }

  -- A round of a loop: a call that takes something, then the rest.
  pub EndsBelow-round :
      {A B : Type 0} {size : S → ℕ} (n : ℕ) {m : Action S A} {f : A → Action S B}
      → Spends size 1 m
      → ((a : A) → EndsBelow size n (f a))
      → EndsBelow size (suc n) (m >>= f)
  EndsBelow-round {size = size} n h g =
      let both = EndsBelow-bind {size = size} 1 n h g in
      record { at = λ s l. both.at s (omega arith) }

  pub EndsBelow-zero : {A : Type 0} {size : S → ℕ} (m : Action S A) → EndsBelow size 0 m
  EndsBelow-zero m = record { at = λ s l. absurd (omega arith) }

  -- A call that changes nothing.
  pub EndsBelow-lift :
      {A : Type 0} {size : S → ℕ} (n : ℕ) (r : Exit A) → Ends r → EndsBelow size n (lift r)
  EndsBelow-lift n r h = record { at = λ s l. h }

  Ends-continue :
      {A B : Type 0} (size : S → ℕ) (o : Exit A × S) (f : A → Action S B)
      → Ends o.0
      → ((a : A) (k : ℕ) → EndsBelow size k (f a))
      → Ends (continue o.0 f o.1).0
  Ends-continue size (done a, t) f h g = (g a (suc (size t))).at t (omega arith)
  Ends-continue size (failed e, t) f h g = h
  Ends-continue size (panicked, t) f h g = tt

  -- A loop, then what ends however much is left.
  pub EndsBelow-after :
      {A B : Type 0} {size : S → ℕ} (n : ℕ) {m : Action S A} {f : A → Action S B}
      → EndsBelow size n m
      → ((a : A) (k : ℕ) → EndsBelow size k (f a))
      → EndsBelow size n (m >>= f)
  EndsBelow-after {size = size} n {m} {f} h g = record {
    at = λ s l. Ends-continue size (m s) f (h.at s l) g;
  }
