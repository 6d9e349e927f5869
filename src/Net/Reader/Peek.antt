-- ===== src/Net/Reader/Peek.antt =====
-- Peek of a buffered reader.
use credential_gateway.Common.{
  ℕ, zero, suc, ◌+◌, ◌-◌, ◌≤◌, ◌<◌, ◌≡◌, refl, sym, ap, ◌∙◌, Bytes, true, false, List, [], ◌∷◌,
  ◌++◌, length, take, drop, min, max, leb, leb→le, leb→gt, arith, inl, inr, Bool-cases,
  length-append, length-take, take-append-drop, append_assoc, append-nil,
}
use credential_gateway.Common.Texts.{is_empty}
use credential_gateway.Net.Exit.{done, failed, eof}
use credential_gateway.Net.Conn.{read_some}
use credential_gateway.Net.Reader.{
  Reader, buffer_size, fill, peek_loop, peek_direct, view, seen, Refines,
}

module _ {ℓ} {A : Type ℓ} where
  pub take-append_le : (n : ℕ) (xs ys : List A) → n ≤ length xs → take n (xs ++ ys) ≡ take n xs
  take-append_le zero xs ys h = refl
  take-append_le (suc n) [] ys h = absurd (omega arith)
  take-append_le (suc n) (x ∷ xs) ys h = ap (◌∷◌ x) (take-append_le n xs ys (omega arith))

  pub drop-append_le :
      (n : ℕ) (xs ys : List A) → n ≤ length xs → drop n (xs ++ ys) ≡ drop n xs ++ ys
  drop-append_le zero xs ys h = refl
  drop-append_le (suc n) [] ys h = absurd (omega arith)
  drop-append_le (suc n) (x ∷ xs) ys h = drop-append_le n xs ys (omega arith)

-- The number of bytes that one fill adds.
abbrev pub fill_size : Reader → ℕ
fill_size r = min (buffer_size - length r.buffered) (max 1 r.conn.chunk)

abbrev pub after_fill : Reader → Reader
after_fill r = record {
  buffered = r.buffered ++ take (fill_size r) r.conn.inbound;
  conn = record (r.conn) { inbound = drop (fill_size r) r.conn.inbound };
}

pub fill_some : (r : Reader) → is_empty r.conn.inbound ≡ false → fill r ≡ (done tt, after_fill r)
unfolding fill read_some
fill_some r e = ground arith

pub fill_none : (r : Reader) → is_empty r.conn.inbound ≡ true → fill r ≡ (failed eof, r)
unfolding fill read_some
fill_none r e = ground arith

pub view-after_fill : (r : Reader) → view (after_fill r) ≡ view r
view-after_fill r =
    ap (λ s. record (r.conn) { inbound = s })
      (append_assoc r.buffered (take (fill_size r) r.conn.inbound) _
        ∙ ap (λ s. r.buffered ++ s) (take-append-drop (fill_size r) r.conn.inbound))

pub is_empty-length : (xs : Bytes) → is_empty xs ≡ false → 0 < length xs
is_empty-length [] e = cc
is_empty-length (x ∷ xs) e = omega arith

pub is_empty-nil : (xs : Bytes) → is_empty xs ≡ true → xs ≡ []
is_empty-nil [] e = refl
is_empty-nil (x ∷ xs) e = cc

-- A fill into a buffer that is not full adds at least one byte.
pub after_fill_grows :
    (r : Reader)
    → is_empty r.conn.inbound ≡ false
    → length r.buffered < buffer_size
    → length r.buffered < length (after_fill r).buffered
after_fill_grows r e h =
    let p = is_empty-length r.conn.inbound e in
    omega (
      arith,
      length-append r.buffered (take (fill_size r) r.conn.inbound),
      length-take (fill_size r) r.conn.inbound,
    )

peek_buffered :
    (n : ℕ) (r : Reader)
    → n ≤ length r.buffered
    → peek_direct n (view r) ≡ (done (take n r.buffered), view r)
peek_buffered n r h =
    ground
      (arith, take-append_le n r.buffered r.conn.inbound h, length-append r.buffered r.conn.inbound)

peek_short :
    (n : ℕ) (r : Reader)
    → length r.buffered < n
    → is_empty r.conn.inbound ≡ true
    → peek_direct n (view r) ≡ (failed eof, view r)
peek_short n r h e = rw (is_empty-nil r.conn.inbound e) (rw (append-nil r.buffered) (ground arith))

peek_loop-seen :
    (f n : ℕ) (r : Reader)
    → n ≤ buffer_size
    → n ≤ length r.buffered + f
    → seen (peek_loop f n r) ≡ peek_direct n (view r)
unfolding peek_loop
peek_loop-seen zero n r s h =
    let k : n ≤ length r.buffered = omega arith in rw (peek_buffered n r k) (ground arith)
peek_loop-seen (suc f) n r s h = elim (Bool-cases (leb n (length r.buffered))) [
  | inl e ↦ rw e (sym (peek_buffered n r (leb→le _ _ e)))
  | inr e ↦ rw e (elim (Bool-cases (is_empty r.conn.inbound)) [
    | inl p ↦ rw (fill_none r p) (sym (peek_short n r (leb→gt _ _ e) p))
    | inr p ↦
        let grown = after_fill_grows r p (ground (arith, leb→gt _ _ e)) in
        rw (fill_some r p) (
          peek_loop-seen f n (after_fill r) s (omega arith)
          ∙ ap (peek_direct n) (view-after_fill r))
  ])
]

pub peek-Refines : (n : ℕ) → n ≤ buffer_size → Refines (peek_loop n n) (peek_direct n)
peek-Refines n h = record { at = λ r. peek_loop-seen n n r h (omega arith) }
