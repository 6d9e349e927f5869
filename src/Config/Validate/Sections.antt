-- ===== src/Config/Validate/Sections.antt =====
-- The loop of `Validate` over the services of one section.
use credential_gateway.Common.{
  ℕ, suc, ◌≡◌, ◌≢◌, refl, sym, ap, subst, ◌∙◌, Bytes, true, false, List, [], ◌∷◌, ◌++◌, map, Option,
  none, some, arith, All, append_assoc, append-nil,
}
use credential_gateway.Common.Texts.{equal_iff}
use credential_gateway.Config.Types.{Section, Label, Result, ok, >>=-eq-ok}
use credential_gateway.Config.Validate.{
  Seen, lookup, Requirements, first_missing, claim, check_services,
}

abbrev pub NotIn : Bytes → List Bytes → Type 0
NotIn a [] = Unit
NotIn a (b ∷ bs) = (a ≢ b) × NotIn a bs

-- No two elements are the same.
abbrev pub Distinct : List Bytes → Type 0
Distinct [] = Unit
Distinct (a ∷ as_) = NotIn a as_ × Distinct as_

-- None of the required fields is empty.
abbrev pub Given : Requirements → Type 0
Given [] = Unit
Given ((b, f) ∷ rest) = (b ≡ false) × Given rest

first_missing_ok : (l : Label) (rs : Requirements) → first_missing l rs ≡ ok tt → Given rs
unfolding first_missing
first_missing_ok l [] e = tt
first_missing_ok l ((true, f) ∷ rs) e = cc
first_missing_ok l ((false, f) ∷ rs) e = (refl, first_missing_ok l rs e)

first_missing-Given : (l : Label) (rs : Requirements) → Given rs → first_missing l rs ≡ ok tt
unfolding first_missing
first_missing-Given l [] g = refl
first_missing-Given l ((true, f) ∷ rs) g = cc g.0
first_missing-Given l ((false, f) ∷ rs) g = first_missing-Given l rs g.1

abbrev pub keys : Seen → List Bytes
keys = map (λ p. p.0)

lookup-NotIn : (a : Bytes) (seen : Seen) → NotIn a (keys seen) → lookup a seen ≡ none
unfolding lookup
lookup-NotIn a [] h = refl
lookup-NotIn a ((b, l) ∷ seen) h = ground (arith, equal_iff a b, lookup-NotIn a seen h.1)

NotIn-lookup : (a : Bytes) (seen : Seen) → lookup a seen ≡ none → NotIn a (keys seen)
unfolding lookup
NotIn-lookup a [] e = tt
NotIn-lookup a ((b, l) ∷ seen) e =
    (λ p. ground (arith, equal_iff a b), NotIn-lookup a seen (ground (arith, equal_iff a b)))

NotIn-append : (a : Bytes) (bs cs : List Bytes) → NotIn a bs → NotIn a cs → NotIn a (bs ++ cs)
NotIn-append a [] cs h k = k
NotIn-append a (b ∷ bs) cs h k = (h.0, NotIn-append a bs cs h.1 k)

Distinct-concat :
    (as_ : List Bytes) (a : Bytes) → Distinct as_ → NotIn a as_ → Distinct (as_ ++ (a ∷ []))
Distinct-concat [] a d n = (tt, tt)
Distinct-concat (b ∷ bs) a d n =
    (NotIn-append b bs (a ∷ []) d.0 ((λ e. n.0 (sym e)), tt), Distinct-concat bs a d.1 n.1)

NotIn-middle :
    (b : Bytes) (bs : List Bytes) (a : Bytes) (cs : List Bytes) → NotIn b (bs ++ (a ∷ cs)) → a ≢ b
NotIn-middle b [] a cs n = λ e. n.0 (sym e)
NotIn-middle b (x ∷ bs) a cs n = NotIn-middle b bs a cs n.1

Distinct-middle :
    (bs : List Bytes) (a : Bytes) (cs : List Bytes) → Distinct (bs ++ (a ∷ cs)) → NotIn a bs
Distinct-middle [] a cs d = tt
Distinct-middle (b ∷ bs) a cs d = (NotIn-middle b bs a cs d.0, Distinct-middle bs a cs d.1)

keys-concat :
    (seen : Seen) (a : Bytes) (l : Label) → keys (seen ++ ((a, l) ∷ [])) ≡ keys seen ++ (a ∷ [])
keys-concat [] a l = refl
keys-concat (p ∷ seen) a l = ap (◌∷◌ (p.0)) (keys-concat seen a l)

claim-eq-ok :
    (l : Label) (a : Bytes) (seen seen' : Seen)
    → claim l a seen ≡ ok seen'
    → NotIn a (keys seen) × (seen' ≡ seen ++ ((a, l) ∷ []))
unfolding claim
claim-eq-ok l a seen seen' e = go (lookup a seen) refl e
  where
    go :
        (o : Option Label)
        → lookup a seen ≡ o
        → claim l a seen ≡ ok seen'
        → NotIn a (keys seen) × (seen' ≡ seen ++ ((a, l) ∷ []))
    go none p h = (NotIn-lookup a seen p, cc (rw (p, claim) at h))
    go (some prev) p h = cc (rw (p, claim) at h)

claim-NotIn :
    (l : Label) (a : Bytes) (seen : Seen)
    → NotIn a (keys seen)
    → claim l a seen ≡ ok (seen ++ ((a, l) ∷ []))
unfolding claim
claim-NotIn l a seen n = rw (lookup-NotIn a seen n, claim)

module _ {A : Type 0} (required : A → Requirements) (listen : A → Bytes) (section : Section) where
  abbrev Loop : ℕ → List A → Seen → Result Seen
  Loop = check_services required listen section

  -- A loop that returns has found every field given, and has recorded the addresses.
  pub check_services_sound :
      (xs : List A) (i : ℕ) (seen seen' : Seen)
      → Loop i xs seen ≡ ok seen'
      → Distinct (keys seen)
      → All (λ x. Given (required x)) xs
        × (keys seen' ≡ keys seen ++ map listen xs)
        × Distinct (keys seen')
  unfolding check_services
  check_services_sound [] i seen seen' e d =
      let p : seen' ≡ seen = cc in (tt, rw p (sym (append-nil (keys seen))), rw p d)
  check_services_sound (x ∷ xs) i seen seen' e d =
      let l : Label = (section, i) in
      let (u, given, e1) = >>=-eq-ok (first_missing l (required x)) _ seen' e in
      let (s1, claimed, e2) = >>=-eq-ok (claim l (listen x) seen) _ seen' e1 in
      let (fresh, grown) = claim-eq-ok l (listen x) seen s1 claimed in
      let k1 : keys s1 ≡ keys seen ++ (listen x ∷ []) = rw grown (keys-concat seen (listen x) l) in
      let d1 : Distinct (keys s1) = rw k1 (Distinct-concat (keys seen) (listen x) d fresh) in
      let (g, k, d2) = check_services_sound xs (suc i) s1 seen' e2 d1 in
      (
        (first_missing_ok l (required x) given, g),
        k
            ∙ ap (λ s. s ++ map listen xs) k1
            ∙ append_assoc (keys seen) (listen x ∷ []) (map listen xs),
        d2,
      )

  -- With addresses that are distinct from all seen and all to come, the loop returns.
  pub check_services_complete :
      (xs : List A) (i : ℕ) (seen : Seen) (rest : List Bytes)
      → All (λ x. Given (required x)) xs
      → Distinct (keys seen ++ (map listen xs ++ rest))
      → (seen' : Seen) × (Loop i xs seen ≡ ok seen') × Distinct (keys seen' ++ rest)
  unfolding check_services
  check_services_complete [] i seen rest g d = (seen, refl, d)
  check_services_complete (x ∷ xs) i seen rest g d =
      let l : Label = (section, i) in
      let s1 : Seen = seen ++ ((listen x, l) ∷ []) in
      let later = map listen xs ++ rest in
      let fresh = Distinct-middle (keys seen) (listen x) later d in
      let k1 : keys s1 ++ later ≡ keys seen ++ (listen x ∷ later) =
        ap (λ s. s ++ later) (keys-concat seen (listen x) l)
        ∙ append_assoc (keys seen) (listen x ∷ []) later in
      let (s2, e, d2) =
        check_services_complete xs (suc i) s1 rest g.1 (subst Distinct (sym k1) d) in
      (
        s2,
        rw (first_missing-Given l (required x) g.0) (rw (claim-NotIn l (listen x) seen fresh) e),
        d2,
      )
