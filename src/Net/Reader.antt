-- ===== src/Net/Reader.antt =====
-- bufio.Reader, as internal/gateway/redis.go uses it: a buffer of 4096 bytes before a connection.
pub mod Peek
pub mod Line
pub mod Exactly
pub mod Refine
use credential_gateway.Common.{
  ℕ, zero, suc, ◌+◌, ◌-◌, ◌*◌, ◌≡◌, Bytes, Bool, true, false, not, [], ◌∷◌, ◌++◌, length, take,
  drop, min, leb, ◌==◌, Option, none, some, if◌then◌else◌,
}
use credential_gateway.Common.Texts.{is_empty}
use credential_gateway.Net.Exit.{Exit, done, failed, panicked, eof, unexpected_eof, out_of_fuel}
use credential_gateway.Net.Exit.Action.{Action, pure, fail, ◌>>=◌}
use credential_gateway.Net.Conn.{Conn, read_full, read_some, write}

pub record Reader : Type 0 where
  pub buffered : Bytes
  pub conn : Conn

abbrev pub buffer_size : ℕ
buffer_size = 4096

-- A call on the connection itself, past the buffer.
abbrev pub on_conn : {A : Type 0} → Action Conn A → Action Reader A
on_conn m r = let (o, c) = m r.conn in (o, record r { conn = c })

-- `fill`: one Read into the free part of the buffer.
unfoldable pub fill : Action Reader (Unit {0})
fill r =
    let (o, c) = read_some (buffer_size - length r.buffered) r.conn in
    elim o [
      | done bs ↦ (done tt, record { buffered = r.buffered ++ bs; conn = c })
      | failed e ↦ (failed e, record r { conn = c })
      | panicked ↦ (panicked, record r { conn = c })
    ]

-- `Peek(n)`: fills until `n` bytes are buffered, and takes none of them.
unfoldable pub peek_loop : ℕ → ℕ → Action Reader Bytes
peek_loop zero n r =
    if leb n (length r.buffered) then (done (take n r.buffered), r) else (failed out_of_fuel, r)
peek_loop (suc f) n r =
    let rest = (fill >>= λ _. peek_loop f n) r in
    if leb n (length r.buffered) then (done (take n r.buffered), r) else rest

abbrev pub suc_of : Option ℕ → Option ℕ
suc_of none = none
suc_of (some k) = some (suc k)

-- The number of bytes up to the first line end, with it.
unfoldable pub line_end : Bytes → Option ℕ
line_end [] = none
line_end (b ∷ bs) = let rest = line_end bs in if b == b'\n' then some 1 else suc_of rest

abbrev pub if_found : {A : Type 0} → Option ℕ → (ℕ → A) → A → A
if_found none f a = a
if_found (some k) f a = f k

-- `ReadString('\n')`: a full buffer without a line end is put aside in `acc`; an error drops
-- what was buffered.
unfoldable pub line_loop : ℕ → Bytes → Action Reader Bytes
unfolding line_end
line_loop zero acc r = (failed out_of_fuel, r)
line_loop (suc f) acc r =
    let aside = line_loop f (acc ++ r.buffered) (record r { buffered = [] }) in
    let filled = line_loop f acc in
    if_found (line_end r.buffered)
      (λ k. (done (acc ++ take k r.buffered), record r { buffered = drop k r.buffered }))
      (if leb buffer_size (length r.buffered)
        then aside
        else if is_empty r.conn.inbound
        then (failed eof, record r { buffered = [] })
        else (fill >>= λ _. filled) r)

-- `io.ReadFull` of `n` more bytes: each Read takes from the buffer what it holds; past an empty
-- buffer it reads a large rest directly, and a small one through the buffer.
unfoldable pub exactly_loop : ℕ → Bytes → ℕ → Action Reader Bytes
exactly_loop zero acc n r = if n == 0 then (done acc, r) else (failed out_of_fuel, r)
exactly_loop (suc f) acc n r =
    let bs = take n r.buffered in
    let buffered =
      exactly_loop f (acc ++ bs) (n - length bs) (record r { buffered = drop n r.buffered }) in
    let direct = (on_conn (read_some n) >>= λ bs. exactly_loop f (acc ++ bs) (n - length bs)) r in
    let filled = (fill >>= λ _. exactly_loop f acc n) r in
    if n == 0
    then (done acc, r)
    else if not (is_empty r.buffered)
    then buffered
    else if is_empty r.conn.inbound
    then (failed (if is_empty acc then eof else unexpected_eof), r)
    else if leb buffer_size n
    then direct
    else filled

-- `x, err := m()`, where the caller goes on after an error.
abbrev pub attempted : {S A : Type 0} → Exit A × S → Exit (Option A) × S
attempted (done a, s) = (done (some a), s)
attempted (failed e, s) = (done none, s)
attempted (panicked, s) = (panicked, s)

abbrev pub attempt : {S A : Type 0} → Action S A → Action S (Option A)
attempt m s = attempted (m s)

-- What a parser needs of its input and output; `discardClientAuth` uses this much of its
-- `*bufio.Reader` and of its `io.Writer`.
pub record Source (S : Type 0) : Type 0 where
  pub peek : ℕ → Action S Bytes
  pub read_line : Action S Bytes
  pub read_exactly : ℕ → Action S Bytes
  pub put : Bytes → Action S (Unit {0})

-- The buffered reader, with the connection itself to write to.
unfoldable pub buffered_source : Source Reader
buffered_source = record {
  peek = λ n. peek_loop n n;
  read_line = λ r. line_loop (2 * length r.conn.inbound + 2) [] r;
  read_exactly = λ n. exactly_loop (2 * n + 2) [] n;
  put = λ bs. on_conn (write bs);
}

-- The same calls on a connection with no buffer before it.
abbrev pub peek_direct : ℕ → Action Conn Bytes
peek_direct n c = if leb n (length c.inbound) then (done (take n c.inbound), c) else (failed eof, c)

abbrev pub line_direct : Bytes → Action Conn Bytes
line_direct acc c =
    if_found (line_end c.inbound)
      (λ k. (done (acc ++ take k c.inbound), record c { inbound = drop k c.inbound }))
      (failed eof, record c { inbound = [] })

unfoldable pub direct_source : Source Conn
direct_source = record {
  peek = peek_direct;
  read_line = line_direct [];
  read_exactly = read_full;
  put = write;
}

-- A reader seen as a connection: its buffer stands in front of what is still to come.
abbrev pub view : Reader → Conn
view r = record (r.conn) { inbound = r.buffered ++ r.conn.inbound }

abbrev pub seen : {A : Type 0} → Exit A × Reader → Exit A × Conn
seen (o, r) = (o, view r)

-- A call does to the reader what the other does to its view, and ends in the same way.
pub record Refines {A : Type 0} (m : Action Reader A) (n : Action Conn A) : Type 0 where
  pub at : (r : Reader) → seen (m r) ≡ n (view r)
