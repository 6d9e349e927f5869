-- ===== src/Redis/Auth/Buffered.antt =====
-- The buffer before the client's connection makes no difference.
use credential_gateway.Common.{ℕ, ◌≡◌, Bytes, ◌||◌, ◌==◌, Option, none, some, ltb, length, arith}
use credential_gateway.Common.Texts.{codes, equal}
use credential_gateway.Net.Exit.{done, index}
use credential_gateway.Net.Exit.Action.{Action}
use credential_gateway.Net.Conn.{Conn}
use credential_gateway.Net.Reader.{Reader, view, seen, Refines, buffered_source, direct_source}
use credential_gateway.Net.Reader.Peek.{peek-Refines}
use credential_gateway.Net.Reader.Line.{line-Refines}
use credential_gateway.Net.Reader.Exactly.{exactly-Refines}
use credential_gateway.Net.Reader.Refine.{
  Refines-bind, Refines-lift, Refines-attempt, Refines-if, put-Refines,
}
use credential_gateway.Redis.Auth.{
  equal_fold, array_command, make_length, scan_length, trim_line, ok_reply, consume_array_auth,
  consume_inline_auth, if_peeked, array_form, inline_form, opening, discard_client_auth,
}

module _ (max_alloc : ℕ) where
  array-Refines :
      Refines
        (consume_array_auth max_alloc buffered_source)
        (consume_array_auth max_alloc direct_source)
  unfolding consume_array_auth buffered_source direct_source
  array-Refines = Refines-bind _ _ _ _ line-Refines λ _. Refines-bind _ _ _ _ line-Refines λ _.
      Refines-bind _ _ _ _ line-Refines λ _. Refines-bind _ _ _ _ line-Refines λ line.
        Refines-bind _ _ _ _ (Refines-lift (make_length max_alloc (scan_length (trim_line line))))
          λ n. Refines-bind _ _ _ _ (exactly-Refines n) λ _. put-Refines ok_reply

  inline-Refines :
      Refines
        (consume_inline_auth max_alloc buffered_source)
        (consume_inline_auth max_alloc direct_source)
  unfolding consume_inline_auth buffered_source direct_source
  inline-Refines = Refines-bind _ _ _ _ line-Refines λ _. put-Refines ok_reply

  if_peeked-Refines :
      (n : ℕ) (f : Bytes → Action Reader (Unit {0})) (g : Bytes → Action Conn (Unit {0}))
      → ((p : Bytes) → Refines (f p) (g p))
      → (o : Option Bytes)
      → Refines
          (if_peeked max_alloc buffered_source n f o)
          (if_peeked max_alloc direct_source n g o)
  if_peeked-Refines n f g k none = Refines-lift (done tt)
  if_peeked-Refines n f g k (some p) =
      Refines-if (ltb (length p) n) _ _ _ _ (Refines-lift (done tt)) (k p)

  array_form-Refines :
      (p : Bytes)
      → Refines (array_form max_alloc buffered_source p) (array_form max_alloc direct_source p)
  array_form-Refines p = Refines-if (array_command p) _ _ _ _ array-Refines (Refines-lift (done tt))

  inline_form-Refines :
      (p : Bytes)
      → Refines (inline_form max_alloc buffered_source p) (inline_form max_alloc direct_source p)
  inline_form-Refines p = Refines-bind _ _ _ _ (Refines-lift (index p 4)) λ c.
      Refines-if (c == b' ' || (c == b'\r' || c == b'\n')) _ _ _ _ inline-Refines
        (Refines-lift (done tt))

  opening-Refines :
      (p : Bytes)
      → Refines (opening max_alloc buffered_source p) (opening max_alloc direct_source p)
  unfolding buffered_source direct_source
  opening-Refines p =
      Refines-if (equal p (codes "*2\r\n")) _ _ _ _
        (Refines-bind _ _ _ _ (Refines-attempt _ _ (peek-Refines 13 (omega arith)))
          (if_peeked-Refines 13 _ _ array_form-Refines))
        (Refines-if (equal_fold p (codes "AUTH")) _ _ _ _
          (Refines-bind _ _ _ _ (Refines-attempt _ _ (peek-Refines 5 (omega arith)))
            (if_peeked-Refines 0 _ _ inline_form-Refines))
          (Refines-lift (done tt)))

  discard-Refines :
      Refines
        (discard_client_auth max_alloc buffered_source)
        (discard_client_auth max_alloc direct_source)
  unfolding discard_client_auth buffered_source direct_source
  discard-Refines =
      Refines-bind _ _ _ _ (Refines-attempt _ _ (peek-Refines 4 (omega arith)))
        (if_peeked-Refines 4 _ _ opening-Refines)

  -- Over the buffered reader, however much each Read hands over and whatever is buffered,
  -- `discard_client_auth` ends as it does on a bare connection with the same stream, has sent the
  -- same, and leaves the same stream: what is buffered, then what is to come.
  pub discard_client_auth_buffered :
      (r : Reader)
      → seen (discard_client_auth max_alloc buffered_source r)
        ≡ discard_client_auth max_alloc direct_source (view r)
  discard_client_auth_buffered r = discard-Refines.at r
