-- ===== src/Std/Decimal/RoundTrip.antt =====
-- A number that `%d` printed is scanned back.
use credential_gateway.Common.{
  ℕ, zero, suc, ◌+◌, ◌-◌, ◌*◌, ◌/◌, ◌%◌, ◌^◌, ◌≤◌, ◌<◌, ◌≡◌, ◌≢◌, refl, ap, ◌∙◌, Bytes, true, false,
  [], ◌∷◌, ◌++◌, All, All-append, some, ltb, arith, inl, inr, Bool-cases,
}
use credential_gateway.Std.Decimal.{
  pos, digits_from, decimal, is_digit, scan_digits, starts_with_digit, signed, scan_int,
}

abbrev pub AreDigits : Bytes → Type 0
AreDigits = All (λ c. is_digit c ≡ true)

one_digit : (n : ℕ) → n < 10 → is_digit (b'0' + n) ≡ true
one_digit n h = ground arith

digits_from-AreDigits : (f n : ℕ) → AreDigits (digits_from f n)
unfolding digits_from
digits_from-AreDigits zero n = (one_digit (n % 10) (omega arith), tt)
digits_from-AreDigits (suc f) n = elim (Bool-cases (ltb n 10)) [
  | inl e ↦ rw e (one_digit n (ground arith), tt)
  | inr e ↦ rw e (
      All-append _ (digits_from f (n / 10)) _ (digits_from-AreDigits f (n / 10))
        (one_digit (n % 10) (omega arith), tt))
]

scan_digits-append :
    (acc : ℕ) (xs ys : Bytes)
    → AreDigits xs
    → scan_digits acc (xs ++ ys) ≡ scan_digits (scan_digits acc xs) ys
unfolding scan_digits
scan_digits-append acc [] ys h = refl
scan_digits-append acc (x ∷ xs) ys h =
    rw (h.0) (scan_digits-append (acc * 10 + (x - b'0')) xs ys h.1)

scan_one : (acc n : ℕ) → n < 10 → scan_digits acc ((b'0' + n) ∷ []) ≡ acc * 10 + n
unfolding scan_digits
scan_one acc n h = rw (one_digit n h) (omega arith)

scan_digits-digits_from : (f n : ℕ) → n ≤ f → scan_digits 0 (digits_from f n) ≡ n
unfolding digits_from
scan_digits-digits_from zero n h = scan_one 0 (n % 10) (omega arith) ∙ omega arith
scan_digits-digits_from (suc f) n h = elim (Bool-cases (ltb n 10)) [
  | inl e ↦ rw e (scan_one 0 n (ground arith) ∙ omega arith)
  | inr e ↦ rw e (
      let small : 10 ≤ n = ground arith in
      scan_digits-append 0 (digits_from f (n / 10)) _ (digits_from-AreDigits f (n / 10))
      ∙ ap (λ a. scan_digits a ((b'0' + n % 10) ∷ []))
          (scan_digits-digits_from f (n / 10) (omega arith))
      ∙ scan_one (n / 10) (n % 10) (omega arith)
      ∙ omega arith)
]

starts-append : (xs ys : Bytes) → starts_with_digit xs ≡ true → starts_with_digit (xs ++ ys) ≡ true
starts-append [] ys e = cc
starts-append (x ∷ xs) ys e = e

starts-digits_from : (f n : ℕ) → starts_with_digit (digits_from f n) ≡ true
unfolding digits_from
starts-digits_from zero n = one_digit (n % 10) (omega arith)
starts-digits_from (suc f) n = elim (Bool-cases (ltb n 10)) [
  | inl e ↦ rw e (one_digit n (ground arith))
  | inr e ↦ rw e (starts-append (digits_from f (n / 10)) _ (starts-digits_from f (n / 10)))
]

scan_int-number :
    (s : Bytes) → starts_with_digit s ≡ true → scan_int s ≡ signed false (scan_digits 0 s)
unfolding scan_int
scan_int-number [] e = cc
scan_int-number (c ∷ cs) e = ground arith

signed_fits : (n : ℕ) → n < 2 ^ 63 → signed false n ≡ some (pos n)
signed_fits n h = ground arith

no_digit : (acc : ℕ) (s : Bytes) → starts_with_digit s ≡ false → scan_digits acc s ≡ acc
unfolding scan_digits
no_digit acc [] e = refl
no_digit acc (c ∷ cs) e = rw e refl

-- A number that fits an int is scanned back, whatever stands behind it but a digit.
pub scan_int-decimal :
    (n : ℕ) (rest : Bytes)
    → n < 2 ^ 63
    → starts_with_digit rest ≡ false
    → scan_int (decimal n ++ rest) ≡ some (pos n)
unfolding decimal
scan_int-decimal n rest h e =
    scan_int-number (digits_from n n ++ rest)
      (starts-append (digits_from n n) rest (starts-digits_from n n))
    ∙ ap (signed false) (
        scan_digits-append 0 (digits_from n n) rest (digits_from-AreDigits n n)
        ∙ no_digit _ rest e
        ∙ scan_digits-digits_from n n (omega arith))
    ∙ signed_fits n h

digits_no_comma : (xs : Bytes) → AreDigits xs → All (λ b. b ≢ b',') xs
digits_no_comma [] h = tt
digits_no_comma (x ∷ xs) h = (digit-ne-comma x h.0, digits_no_comma xs h.1)
  where
    digit-ne-comma : (c : ℕ) → is_digit c ≡ true → c ≢ b','
    digit-ne-comma c e = ground arith

pub decimal-AreDigits : (n : ℕ) → AreDigits (decimal n)
unfolding decimal
decimal-AreDigits n = digits_from-AreDigits n n

-- No comma stands in a decimal number.
pub decimal_no_comma : (n : ℕ) → All (λ b. b ≢ b',') (decimal n)
unfolding decimal
decimal_no_comma n = digits_no_comma (digits_from n n) (digits_from-AreDigits n n)
