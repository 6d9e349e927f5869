-- ===== src/Net/Exit/Ensures.antt =====
-- What an action leaves behind, by how it ends, with one rule for each way to build an action.
use credential_gateway.Common.{ℕ, Bool, true, false, ◌≡◌, refl, if◌then◌else◌}
use credential_gateway.Net.Exit.{Fault, Exit, done, failed, panicked}
use credential_gateway.Net.Exit.Action.{Action, fail, lift, continue, ◌>>=◌}

-- `Q` of the value and the state if the call returns, `R` of the state if it does not.
abbrev pub Holds : {S A : Type 0} → (A → S → Type 0) → (S → Type 0) → Exit A × S → Type 0
Holds Q R (done a, s) = Q a s
Holds Q R (failed e, s) = R s
Holds Q R (panicked, s) = R s

pub record Ensures {S A : Type 0} (P : S → Type 0) (m : Action S A) (Q : A → S → Type 0)
    (R : S → Type 0) : Type 0 where
  pub at : (s : S) → P s → Holds Q R (m s)

module _ {S : Type 0} {R : S → Type 0} where
  -- The first call's state, then whatever the rest makes of it.
  Holds-continue :
      {A B : Type 0} (o : Exit A × S) (f : A → Action S B) {Q : A → S → Type 0} {T : B → S → Type 0}
      → Holds Q R o
      → ((a : A) → Ensures (Q a) (f a) T R)
      → Holds T R (continue o.0 f o.1)
  Holds-continue (done a, s) f h k = (k a).at s h
  Holds-continue (failed e, s) f h k = h
  Holds-continue (panicked, s) f h k = h

  pub Ensures-bind :
      {A B : Type 0} {P : S → Type 0} {m : Action S A} (Q : A → S → Type 0) {f : A → Action S B}
      {T : B → S → Type 0}
      → Ensures P m Q R
      → ((a : A) → Ensures (Q a) (f a) T R)
      → Ensures P (m >>= f) T R
  Ensures-bind {m = m} Q {f = f} h k = record { at = λ s p. Holds-continue (m s) f (h.at s p) k }

  -- A call that changes nothing of the state.
  pub Ensures-lift :
      {A : Type 0} {P : S → Type 0} (r : Exit A)
      → ((s : S) → P s → R s)
      → Ensures P (lift r) (λ _. P) R
  Ensures-lift (done a) w = record { at = λ s p. p }
  Ensures-lift (failed e) w = record { at = w }
  Ensures-lift panicked w = record { at = w }

-- What a state is known to have, for some `x`.
pub Ensures-some :
    {S A X : Type 0} {K : X → Type 0} (P : X → S → Type 0) {m : Action S A} {Q : A → S → Type 0}
    {R : S → Type 0}
    → ((x : X) → K x → Ensures (P x) m Q R)
    → Ensures (λ s. (x : X) × K x × P x s) m Q R
Ensures-some P h = record { at = λ s (x, k, p). (h x k).at s p }

-- A test in an action: each branch under its outcome.
pub Ensures-if :
    {S A : Type 0} {P : S → Type 0} {Q : A → S → Type 0} {R : S → Type 0} (b : Bool)
    (m n : Action S A)
    → (b ≡ true → Ensures P m Q R)
    → (b ≡ false → Ensures P n Q R)
    → Ensures P (if b then m else n) Q R
Ensures-if true m n km kn = km refl
Ensures-if false m n km kn = kn refl

-- However the call ended.
Holds-state :
    {S A : Type 0} (Q : A → S → Type 0) (R : S → Type 0) (o : Exit A × S)
    → ((a : A) (s : S) → Q a s → R s)
    → Holds Q R o
    → R o.1
Holds-state Q R (done a, s) k h = k a s h
Holds-state Q R (failed e, s) k h = h
Holds-state Q R (panicked, s) k h = h

-- A call whose own outcome is dropped, before an error.
pub Ensures-drop :
    {S A B : Type 0} {P : S → Type 0} (Q : A → S → Type 0) {T : B → S → Type 0} {R : S → Type 0}
    {m : Action S A} (e : Fault)
    → Ensures P m Q R
    → ((a : A) (s : S) → Q a s → R s)
    → Ensures P (λ s. (failed e, (m s).1)) T R
Ensures-drop Q {R = R} {m = m} e h k = record { at = λ s p. Holds-state Q R (m s) k (h.at s p) }

module _ {S A : Type 0} {Q T : A → S → Type 0} (R : S → Type 0)
    (k : (a : A) (s : S) → Q a s → T a s) where
  Holds-weaker : (o : Exit A × S) → Holds Q R o → Holds T R o
  Holds-weaker (done a, s) h = k a s h
  Holds-weaker (failed e, s) h = h
  Holds-weaker (panicked, s) h = h

  pub Ensures-weaker : {P : S → Type 0} {m : Action S A} → Ensures P m Q R → Ensures P m T R
  Ensures-weaker {m = m} h = record { at = λ s p. Holds-weaker (m s) (h.at s p) }

-- A call that ends with an error.
pub Ensures-fail :
    {S A : Type 0} {P : S → Type 0} {Q : A → S → Type 0} {R : S → Type 0} (e : Fault)
    → ((s : S) → P s → R s)
    → Ensures P (fail e) Q R
Ensures-fail e w = record { at = w }

pub Ensures-panic :
    {S A : Type 0} {P : S → Type 0} {Q : A → S → Type 0} {R : S → Type 0}
    → ((s : S) → P s → R s)
    → Ensures P (lift panicked) Q R
Ensures-panic w = record { at = w }

-- The fuel of a loop is counted when the loop begins.
pub Ensures-counted :
    {S A : Type 0} {P : S → Type 0} {Q : A → S → Type 0} {R : S → Type 0} (m : ℕ → Action S A)
    (n : S → ℕ)
    → ((f : ℕ) → Ensures P (m f) Q R)
    → Ensures P (λ s. m (n s) s) Q R
Ensures-counted m n h = record { at = λ s p. (h (n s)).at s p }
