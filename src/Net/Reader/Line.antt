-- ===== src/Net/Reader/Line.antt =====
-- ReadString of a buffered reader.
use credential_gateway.Common.{
  ℕ, zero, suc, ◌+◌, ◌*◌, ◌≤◌, ◌<◌, ◌≡◌, refl, sym, ap, subst, ◌∙◌, Bytes, Bool, true, false, [],
  ◌∷◌, ◌++◌, length, take, drop, leb, leb→le, arith, inl, inr, ◌==◌, Bool-cases, Option, none, some,
  Option-cases, length-drop, take-append, drop-append, append_assoc, append-nil, if◌then◌else◌,
}
use credential_gateway.Common.Texts.{is_empty}
use credential_gateway.Net.Exit.{done, failed, eof}
use credential_gateway.Net.Reader.{
  Reader, suc_of, buffer_size, line_end, line_loop, line_direct, view, seen, Refines,
}
use credential_gateway.Net.Reader.Peek.{
  take-append_le, drop-append_le, fill_size, after_fill, fill_some, view-after_fill,
  is_empty-length, is_empty-nil,
}

abbrev within : Option ℕ → ℕ → Bool
within none n = true
within (some k) n = leb k n

line_end-within : (bs : Bytes) → within (line_end bs) (length bs) ≡ true
unfolding line_end
line_end-within [] = refl
line_end-within (b ∷ bs) = ground (arith, line_end-within bs)

abbrev later : Option ℕ → ℕ → Option ℕ
later none n = none
later (some k) n = some (n + k)

abbrev or_later : Option ℕ → Option ℕ → ℕ → Option ℕ
or_later none o n = later o n
or_later (some k) o n = some k

later_zero : (o : Option ℕ) → later o 0 ≡ o
later_zero none = refl
later_zero (some k) = ap some (omega arith)

line_end-append :
    (bs cs : Bytes) → line_end (bs ++ cs) ≡ or_later (line_end bs) (line_end cs) (length bs)
unfolding line_end
line_end-append [] cs = sym (later_zero (line_end cs))
line_end-append (b ∷ bs) cs =
    rw (line_end-append bs cs) (cases (b == b'\n') (line_end bs) (line_end cs))
  where
    cases :
        (t : Bool) (o p : Option ℕ)
        → (if t then some 1 else suc_of (or_later o p (length bs)))
          ≡ or_later (if t then some 1 else suc_of o) p (suc (length bs))
    cases true o p = refl
    cases false (some k) p = refl
    cases false none none = refl
    cases false none (some k) = ap some (omega arith)

-- The line ends in the buffer.
line_direct_buffered :
    (acc : Bytes) (r : Reader) (k : ℕ)
    → line_end r.buffered ≡ some k
    → line_direct acc (view r)
      ≡ (done (acc ++ take k r.buffered), view (record r { buffered = drop k r.buffered }))
line_direct_buffered acc r k e =
    let le : k ≤ length r.buffered =
      leb→le _ _
        (subst (λ o. within o (length r.buffered) ≡ true) e (line_end-within r.buffered)) in
    rw
      (
        line_end-append r.buffered r.conn.inbound,
        e,
        take-append_le k r.buffered r.conn.inbound le,
        drop-append_le k r.buffered r.conn.inbound le,
      )
      refl

-- A buffer without a line end may be put aside.
line_direct_aside :
    (acc : Bytes) (r : Reader)
    → line_end r.buffered ≡ none
    → line_direct (acc ++ r.buffered) r.conn ≡ line_direct acc (view r)
line_direct_aside acc r e = elim (Option-cases (line_end r.conn.inbound)) [
  | inl p ↦ rw (line_end-append r.buffered r.conn.inbound, e, p) refl
  | inr (k, p) ↦
      rw
        (
          line_end-append r.buffered r.conn.inbound,
          e,
          p,
          take-append r.buffered r.conn.inbound (length r.buffered + k) k refl,
          drop-append r.buffered r.conn.inbound (length r.buffered + k) k refl,
          append_assoc acc r.buffered (take k r.conn.inbound),
        )
        refl
]

line_direct_end :
    (acc : Bytes) (r : Reader)
    → line_end r.buffered ≡ none
    → is_empty r.conn.inbound ≡ true
    → line_direct acc (view r) ≡ (failed eof, view (record r { buffered = [] }))
line_direct_end acc r e p =
    let q = is_empty-nil r.conn.inbound p in rw (q, append-nil r.buffered, e) refl

-- Twice what is to come, and one more for a full buffer, are enough rounds.
line_loop-seen :
    (f : ℕ) (acc : Bytes) (r : Reader)
    → 2 * length r.conn.inbound + (if leb buffer_size (length r.buffered) then 1 else 0) < f
    → seen (line_loop f acc r) ≡ line_direct acc (view r)
unfolding line_loop
line_loop-seen zero acc r h = absurd (omega arith)
line_loop-seen (suc f) acc r h = elim (Option-cases (line_end r.buffered)) [
  | inr (k, e) ↦ rw e (sym (line_direct_buffered acc r k e))
  | inl e ↦ rw e (elim (Bool-cases (leb buffer_size (length r.buffered))) [
    | inl full ↦ rw full (
        line_loop-seen f (acc ++ r.buffered) (record r { buffered = [] }) (ground arith)
        ∙ line_direct_aside acc r e)
    | inr free ↦ rw free (elim (Bool-cases (is_empty r.conn.inbound)) [
      | inl p ↦ rw p (sym (line_direct_end acc r e p))
      | inr p ↦ rw p (
          rw (fill_some r p) (
            line_loop-seen f acc (after_fill r) (
              ground
                (arith, length-drop (fill_size r) r.conn.inbound, is_empty-length r.conn.inbound p))
            ∙ ap (line_direct acc) (view-after_fill r)))
    ])
  ])
]

pub line-Refines : Refines (λ r. line_loop (2 * length r.conn.inbound + 2) [] r) (line_direct [])
line-Refines = record { at = λ r. line_loop-seen _ [] r (ground arith) }
