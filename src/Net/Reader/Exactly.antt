-- ===== src/Net/Reader/Exactly.antt =====
-- ReadFull of a buffered reader.
use credential_gateway.Common.{
  ℕ, zero, suc, ◌+◌, ◌-◌, ◌*◌, ◌≤◌, ◌<◌, ◌≡◌, refl, sym, ap, ◌∙◌, Bytes, true, false, [], ◌∷◌, ◌++◌,
  length, take, drop, min, max, leb, ◌==◌, arith, inl, inr, Bool-cases, length-append, take-append,
  drop-append, length-take, append_assoc, append-nil, take-append-drop, if◌then◌else◌,
}
use credential_gateway.Common.Texts.{is_empty}
use credential_gateway.Net.Exit.{done, failed, eof, unexpected_eof}
use credential_gateway.Net.Exit.Action.{Action}
use credential_gateway.Net.Conn.{Conn, read_full, read_some}
use credential_gateway.Net.Reader.{Reader, buffer_size, exactly_loop, view, seen, Refines}
use credential_gateway.Net.Reader.Peek.{
  after_fill, fill_some, view-after_fill, is_empty-length, is_empty-nil, after_fill_grows,
}

-- `n` bytes behind those already read.
abbrev rest_direct : Bytes → ℕ → Action Conn Bytes
rest_direct acc n c =
    if leb n (length c.inbound)
    then (done (acc ++ take n c.inbound), record c { inbound = drop n c.inbound })
    else (
      failed (if is_empty (acc ++ c.inbound) then eof else unexpected_eof),
      record c { inbound = [] },
    )

-- Some of the bytes may be read before.
rest_direct_later :
    (acc bs : Bytes) (n : ℕ) (c : Conn)
    → length bs ≤ n
    → rest_direct (acc ++ bs) (n - length bs) c
      ≡ rest_direct acc n (record c { inbound = bs ++ c.inbound })
rest_direct_later acc bs n c h =
    let k = n - length bs in
    let p : n ≡ length bs + k = omega arith in
    rw
      (
        take-append bs c.inbound n k p,
        drop-append bs c.inbound n k p,
        append_assoc acc bs c.inbound,
        append_assoc acc bs (take k c.inbound),
      )
      (elim (Bool-cases (leb k (length c.inbound))) [
        | inl e ↦ rw (e, lt_test e) refl
        | inr e ↦ rw (e, gt_test e) refl
      ])
  where
    lt_test :
        leb (n - length bs) (length c.inbound) ≡ true → leb n (length (bs ++ c.inbound)) ≡ true
    lt_test e = ground (arith, length-append bs c.inbound)

    gt_test :
        leb (n - length bs) (length c.inbound) ≡ false → leb n (length (bs ++ c.inbound)) ≡ false
    gt_test e = ground (arith, length-append bs c.inbound)

rest_direct_zero : (acc : Bytes) (c : Conn) → rest_direct acc 0 c ≡ (done acc, c)
rest_direct_zero acc c = ground (arith, append-nil acc)

rest_direct_taken :
    (acc : Bytes) (k n : ℕ) (src more : Bytes) (c : Conn)
    → k ≤ n
    → let bs = take k src in
      rest_direct (acc ++ bs) (n - length bs) (record c { inbound = drop k src ++ more })
      ≡ rest_direct acc n (record c { inbound = src ++ more })
rest_direct_taken acc k n src more c h =
    rest_direct_later acc (take k src) n (record c { inbound = drop k src ++ more })
      (omega (arith, length-take k src))
    ∙ ap (λ s. rest_direct acc n (record c { inbound = s }))
        (sym (append_assoc (take k src) (drop k src) more)
          ∙ ap (λ s. s ++ more) (take-append-drop k src))

rest_direct_end :
    (acc : Bytes) (n : ℕ) (r : Reader)
    → (n == 0) ≡ false
    → is_empty r.buffered ≡ true
    → is_empty r.conn.inbound ≡ true
    → rest_direct acc n (view r) ≡ (failed (if is_empty acc then eof else unexpected_eof), view r)
rest_direct_end acc n r e p q =
    rw (is_empty-nil r.buffered p)
      (rw (is_empty-nil r.conn.inbound q) (rw (append-nil acc) (ground arith)))

read_some_some :
    (n : ℕ) (c : Conn)
    → is_empty c.inbound ≡ false
    → let k = min n (max 1 c.chunk) in
      read_some n c ≡ (done (take k c.inbound), record c { inbound = drop k c.inbound })
unfolding read_some
read_some_some n c e = ground arith

-- One Read past an empty buffer.
direct_taken :
    (acc : Bytes) (n : ℕ) (r : Reader)
    → is_empty r.buffered ≡ true
    → let k = min n (max 1 r.conn.chunk) in
      let bs = take k r.conn.inbound in
      rest_direct
        (acc ++ bs)
        (n - length bs)
        (view (record r { conn = record (r.conn) { inbound = drop k r.conn.inbound } }))
      ≡ rest_direct acc n (view r)
direct_taken acc n r p =
    let k = min n (max 1 r.conn.chunk) in
    rw (is_empty-nil r.buffered p) (
      rest_direct_later acc (take k r.conn.inbound) n
        (record (r.conn) { inbound = drop k r.conn.inbound })
        (omega (arith, length-take k r.conn.inbound))
      ∙ ap (λ s. rest_direct acc n (record (r.conn) { inbound = s }))
          (take-append-drop k r.conn.inbound))

length-is_empty : (xs : Bytes) → 0 < length xs → is_empty xs ≡ false
length-is_empty [] h = absurd (omega arith)
length-is_empty (x ∷ xs) h = refl

fuel_left :
    (f n : ℕ) (r : Reader)
    → is_empty r.buffered ≡ true
    → is_empty r.conn.inbound ≡ false
    → 2 * n + (if is_empty r.buffered then 1 else 0) ≤ suc f
    → 2 * n + (if is_empty (after_fill r).buffered then 1 else 0) ≤ f
fuel_left f n r p q h =
    let room : length r.buffered < buffer_size = rw (is_empty-nil r.buffered p) (omega arith) in
    let grown = after_fill_grows r q room in
    let h' : 2 * n + 1 ≤ suc f = rw p at h in
    rw (length-is_empty (after_fill r).buffered (omega arith)) (omega arith)

exactly_loop-seen :
    (f : ℕ) (acc : Bytes) (n : ℕ) (r : Reader)
    → 2 * n + (if is_empty r.buffered then 1 else 0) ≤ f
    → seen (exactly_loop f acc n r) ≡ rest_direct acc n (view r)
unfolding exactly_loop
exactly_loop-seen zero acc n r h =
    let p : n ≡ 0 = omega arith in rw p (sym (rest_direct_zero acc (view r)))
exactly_loop-seen (suc f) acc n r h = elim (Bool-cases (n == 0)) [
  | inl e ↦
      let z : n ≡ 0 = ground arith in
      rw e (sym (ap (λ m. rest_direct acc m (view r)) z ∙ rest_direct_zero acc (view r)))
  | inr e ↦ rw e (elim (Bool-cases (is_empty r.buffered)) [
    | inr p ↦ rw p (
        exactly_loop-seen f (acc ++ take n r.buffered) _ (record r { buffered = drop n r.buffered })
          (ground (arith, length-take n r.buffered, is_empty-length r.buffered p))
        ∙ rest_direct_taken acc n n r.buffered r.conn.inbound r.conn (omega arith))
    | inl p ↦ rw p (elim (Bool-cases (is_empty r.conn.inbound)) [
      | inl q ↦ rw q (sym (rest_direct_end acc n r e p q))
      | inr q ↦ rw q (elim (Bool-cases (leb buffer_size n)) [
        | inl large ↦ rw large (
            rw (read_some_some n r.conn q) (
              exactly_loop-seen f _ _ _ (
                ground (
                  arith,
                  length-take (min n (max 1 r.conn.chunk)) r.conn.inbound,
                  is_empty-length r.conn.inbound q,
                ))
              ∙ direct_taken acc n r p))
        | inr small ↦ rw small (
            rw (fill_some r q) (
              exactly_loop-seen f acc n (after_fill r) (fuel_left f n r p q h)
              ∙ ap (rest_direct acc n) (view-after_fill r)))
      ])
    ])
  ])
]

pub exactly-Refines : (n : ℕ) → Refines (exactly_loop (2 * n + 2) [] n) (read_full n)
unfolding read_full
exactly-Refines n = record { at = λ r. exactly_loop-seen (2 * n + 2) [] n r (ground arith) }
