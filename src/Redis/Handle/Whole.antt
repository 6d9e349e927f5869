-- ===== src/Redis/Handle/Whole.antt =====
-- The password of a client's AUTH command is taken off its stream whole.
use credential_gateway.Common.{
  ℕ, suc, ◌+◌, ◌^◌, ◌≤◌, ◌<◌, ◌≡◌, refl, ap, Bytes, [], ◌∷◌, ◌++◌, length, take, drop, some, arith,
  append-nil, sym, length-append,
}
use credential_gateway.Common.Texts.{codes}
use credential_gateway.Std.Decimal.{decimal}
use credential_gateway.Std.Decimal.RoundTrip.{AreDigits, decimal-AreDigits, scan_int-decimal}
use credential_gateway.Net.Exit.{done}
use credential_gateway.Net.Exit.Action.{Action, lift, ◌>>=◌, ◌>>◌}
use credential_gateway.Net.Conn.{Conn, wrote, with_inbound, read_full, write}
use credential_gateway.Net.Conn.Laws.{read_full-append, write_done}
use credential_gateway.Net.Reader.{line_end, line_direct}
use credential_gateway.Redis.Auth.{make_length, scan_length, trim_line, ok_reply}

abbrev line_mark : Bytes
line_mark = codes "\r\n"

line_end-digits :
    (xs rest : Bytes)
    → AreDigits xs
    → line_end (xs ++ (line_mark ++ rest)) ≡ some (suc (suc (length xs)))
unfolding line_end
line_end-digits [] rest h = refl
line_end-digits (x ∷ xs) rest (d, h) = grind (arith, line_end-digits xs rest h)

trim_line-digits : (xs : Bytes) → AreDigits xs → trim_line (xs ++ line_mark) ≡ xs
unfolding trim_line
trim_line-digits [] h = refl
trim_line-digits (x ∷ xs) (d, h) = rw (trim_line-digits xs h) (ground arith)

trim_line-dollar : (xs : Bytes) → AreDigits xs → trim_line (b'$' ∷ (xs ++ line_mark)) ≡ b'$' ∷ xs
unfolding trim_line
trim_line-dollar xs h = rw (trim_line-digits xs h) (ground arith)

take_one :
    (x : ℕ) (xs ys : Bytes)
    → take (suc (suc (suc (length xs)))) (x ∷ (xs ++ (line_mark ++ ys))) ≡ x ∷ (xs ++ line_mark)
take_one x [] ys = refl
take_one x (y ∷ xs) ys = ap (λ s. x ∷ s) (take_one y xs ys)

drop_one :
    (x : ℕ) (xs ys : Bytes)
    → drop (suc (suc (suc (length xs)))) (x ∷ (xs ++ (line_mark ++ ys))) ≡ ys
drop_one x [] ys = refl
drop_one x (y ∷ xs) ys = drop_one y xs ys

module _ (max_alloc : ℕ) (c : Conn) where
  -- What `consumeArrayAuth` does behind its first three lines.
  abbrev pub take_password : Action Conn (Unit {0})
  take_password = do
    line ← line_direct []
    n ← lift (make_length max_alloc (scan_length (trim_line line)))
    read_full n
    write ok_reply

  length_line :
      (xs rest : Bytes)
      → AreDigits xs
      → line_direct [] (with_inbound (b'$' ∷ (xs ++ (line_mark ++ rest))) c)
        ≡ (done (b'$' ∷ (xs ++ line_mark)), with_inbound rest c)
  unfolding line_end
  length_line xs rest h =
      rw (line_end-digits xs rest h) (rw (take_one b'$' xs rest, drop_one b'$' xs rest) refl)

  length_read :
      (n : ℕ)
      → n < 2 ^ 63
      → n + 2 ≤ max_alloc
      → make_length max_alloc (scan_length (trim_line (b'$' ∷ (decimal n ++ line_mark))))
        ≡ done (n + 2)
  length_read n small room =
      rw (trim_line-dollar (decimal n) (decimal-AreDigits n))
        (rw (sym (append-nil (decimal n)), scan_int-decimal n [] small refl) (ground arith))

  pub password_taken :
      (pw rest : Bytes)
      → length pw < 2 ^ 63
      → length pw + 2 ≤ max_alloc
      → length ok_reply ≤ c.capacity
      → take_password (
          with_inbound
            (b'$' ∷ (decimal (length pw) ++ (line_mark ++ ((pw ++ line_mark) ++ rest))))
            c)
        ≡ (done tt, wrote ok_reply (with_inbound rest c))
  password_taken pw rest small room reply =
      rw (length_line (decimal (length pw)) ((pw ++ line_mark) ++ rest) (decimal-AreDigits _)) (
        rw (length_read (length pw) small room) (
          rw
            (read_full-append (length pw + 2) (pw ++ line_mark) rest
              (with_inbound ((pw ++ line_mark) ++ rest) c) (sym (length-append pw line_mark)) refl)
            (write_done ok_reply (with_inbound rest c) reply)))
