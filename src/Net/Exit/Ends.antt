-- ===== src/Net/Exit/Ends.antt =====
-- Results that are the code's own, and not the model's lack of fuel.
use credential_gateway.Common.{
  ℕ, ◌≢◌, refl, Bool, true, false, Bytes, length, leb, inl, inr, Bool-cases,
}
use credential_gateway.Net.Exit.{
  Fault, Exit, done, failed, panicked, out_of_fuel, fail_if, slice_from, ◌>>=◌,
}

-- The call ended as the code's does: it did not run out of fuel.
abbrev pub Ends {ℓ} : {A : Type ℓ} → Exit A → Type 0
Ends (done a) = Unit
Ends (failed e) = e ≢ out_of_fuel
Ends panicked = Unit

pub Ends-never {ℓ} : {A : Type ℓ} (r : Exit A) → ((e : Fault) → r ≢ failed e) → Ends r
Ends-never (done a) h = tt
Ends-never (failed e) h = absurd (h e refl)
Ends-never panicked h = tt

pub Ends-slice_from : (n : ℕ) (xs : Bytes) → Ends (slice_from n xs)
Ends-slice_from n xs = elim (Bool-cases (leb n (length xs))) [ inl e ↦ rw e tt | inr e ↦ rw e tt ]

pub Ends-bind :
    {A B : Type 0} (m : Exit A) (f : A → Exit B) → Ends m → ((a : A) → Ends (f a)) → Ends (m >>= f)
Ends-bind (done a) f h k = k a
Ends-bind (failed e) f h k = h
Ends-bind panicked f h k = tt

pub Ends-fail_if : (b : Bool) (e : Fault) → e ≢ out_of_fuel → Ends (fail_if b e)
Ends-fail_if true e h = h
Ends-fail_if false e h = tt
