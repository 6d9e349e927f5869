-- ===== src/Net/Exit/Action.antt =====
-- Calls that change a state, such as a connection. What was read or written before an error
-- stays so: the state comes back with every exit.
use credential_gateway.Common.{Bool, ◌≡◌, refl}
use credential_gateway.Net.Exit.{Fault, Exit, done, failed, panicked, fail_if}

abbrev pub Action : Type 0 → Type 0 → Type 0
Action S A = S → Exit A × S

module _ {S A : Type 0} where
  abbrev pub pure : A → Action S A
  pure a s = (done a, s)

  abbrev pub fail : Fault → Action S A
  fail e s = (failed e, s)

  abbrev pub lift : Exit A → Action S A
  lift r s = (r, s)

abbrev pub guard_not : {S : Type 0} → Bool → Fault → Action S (Unit {0})
guard_not b e = lift (fail_if b e)

module _ {S A B : Type 0} where
  -- What follows a call: it runs only if the call returned.
  abbrev pub continue : Exit A → (A → Action S B) → Action S B
  continue (done a) f s = f a s
  continue (failed e) f s = (failed e, s)
  continue panicked f s = (panicked, s)

  infixl 5 ◌>>=◌ ◌>>◌
  abbrev pub ◌>>=◌ : Action S A → (A → Action S B) → Action S B
  ◌>>=◌ m f s = let (r, s') = m s in continue r f s'

  abbrev pub ◌>>◌ : Action S A → Action S B → Action S B
  m >> k = m >>= λ _. k

  -- A call that is known to return is its value and its state.
  pub bind_done :
      (m : Action S A) (f : A → Action S B) (s : S) {a : A} {s' : S}
      → m s ≡ (done a, s')
      → (m >>= f) s ≡ f a s'
  bind_done m f s e = rw e

  pub bind_inv :
      (m : Action S A) (f : A → Action S B) (s t : S) (b : B)
      → (m >>= f) s ≡ (done b, t)
      → (a : A) × (s' : S) × (m s ≡ (done a, s')) × (f a s' ≡ (done b, t))
  bind_inv m f s t b e = go (m s) refl e
    where
      go :
          (o : Exit A × S)
          → m s ≡ o
          → continue o.0 f o.1 ≡ (done b, t)
          → (a : A) × (s' : S) × (m s ≡ (done a, s')) × (f a s' ≡ (done b, t))
      go (done a, s') p h = (a, s', p, h)
      go (failed x, s') p h = cc
      go (panicked, s') p h = cc
