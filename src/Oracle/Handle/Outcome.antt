-- ===== src/Oracle/Handle/Outcome.antt =====
-- What the proxy makes of peers that send whole packets.
use credential_gateway.Common.{
  ℕ, suc, ◌+◌, ◌-◌, ◌^◌, ◌≤◌, ◌<◌, ◌≡◌, refl, ap, ◌∙◌, Bytes, List, false, inl, inr, Bool-cases,
  ◌&&◌, [], ◌∷◌, ◌++◌, length, All, arith, append_assoc, length-append, ◌==◌, if◌then◌else◌,
}
use credential_gateway.Common.Texts.{is_empty}
use credential_gateway.Net.Exit.{Exit, done, failed, unexpected_type}
use credential_gateway.Net.Exit.Action.{Action}
use credential_gateway.Net.Conn.{Conn, wrote, with_inbound}
use credential_gateway.Net.Conn.Laws.{wrote_nil, wrote-wrote}
use credential_gateway.Net.World.{World}
use credential_gateway.Oracle.Tns.Laws.{frame, read_tns-frame, write_tns-frame}
use credential_gateway.Oracle.Handle.{refuse, answer_connect, connect_loop, connect_all}

-- A listener that answers with a RESEND packet for each of the bodies, and then with `last`.
abbrev pub resends : List Bytes → Bytes → Bytes
resends [] last = last
resends (b ∷ bs) last = frame 11 b ++ resends bs last

-- As many CONNECT packets.
abbrev pub copies : Bytes → List Bytes → Bytes
copies connect [] = []
copies connect (b ∷ bs) = frame 1 connect ++ copies connect bs

abbrev pub Fits : Bytes → Type 0
Fits body = 8 + length body < 2 ^ 16

resends-append :
    (bodies : List Bytes) (last rest : Bytes)
    → resends bodies last ++ rest ≡ resends bodies (last ++ rest)
resends-append [] last rest = refl
resends-append (b ∷ bs) last rest =
    append_assoc (frame 11 b) (resends bs last) rest
    ∙ ap (λ s. frame 11 b ++ s) (resends-append bs last rest)

-- Every packet has 8 bytes.
length-resends :
    (bodies : List Bytes) (last : Bytes)
    → length bodies + length last ≤ length (resends bodies last)
length-resends [] last = omega arith
length-resends (b ∷ bs) last = omega (
  arith,
  length-resends bs last,
  length-append (frame 11 b) (resends bs last),
  length-append b [],
)

-- The upstream's connection once the packets are answered.
abbrev pub answered : Bytes → List Bytes → Bytes → Conn → Conn
answered connect bodies rest c = record (wrote (copies connect bodies) c) { inbound = rest }

no_more : (k : ℕ) → 0 + k ≡ k
no_more k = omega arith

one_more : (n k : ℕ) → suc n + k ≡ suc (n + k)
one_more n k = omega arith

connect_loop_once :
    (connect b : Bytes) (f : ℕ) (rest : Bytes) (w : World)
    → Fits b
    → w.upstream.inbound ≡ frame 11 b ++ rest
    → length (frame 1 connect) ≤ w.upstream.capacity
    → connect_loop (suc f) connect w
      ≡ connect_loop f connect
          (record w { upstream = wrote (frame 1 connect) (with_inbound rest w.upstream) })
unfolding connect_loop answer_connect
connect_loop_once connect b f rest w fit e room =
    rw (read_tns-frame 11 b rest w.upstream fit e)
      (rw (write_tns-frame 1 connect (with_inbound rest w.upstream) room))

connect_loop-resends :
    (connect : Bytes) (bodies : List Bytes) (k : ℕ) (last : Bytes) (w : World)
    → All Fits bodies
    → w.upstream.inbound ≡ resends bodies last
    → length (copies connect bodies) ≤ w.upstream.capacity
    → connect_loop (length bodies + k) connect w
      ≡ connect_loop k connect (record w { upstream = answered connect bodies last w.upstream })
connect_loop-resends connect [] k last w fits e room =
    ap (λ f. connect_loop f connect w) (no_more k)
    ∙ ap (λ (c : Conn). connect_loop k connect (record w { upstream = c }))
        (ap (λ s. with_inbound s w.upstream) e
          ∙ ap (λ c. with_inbound last c) (wrote_nil w.upstream))
connect_loop-resends connect (b ∷ bs) k last w (fit, fits) e room =
    let read = with_inbound (resends bs last) w.upstream in
    let next = record w { upstream = wrote (frame 1 connect) read } in
    let sizes = length-append (frame 1 connect) (copies connect bs) in
    ap (λ f. connect_loop f connect w) (one_more (length bs) k)
    ∙ connect_loop_once connect b (length bs + k) (resends bs last) w fit e
        (omega (arith, room, sizes))
    ∙ connect_loop-resends connect bs k last next fits refl (omega (arith, room, sizes))
    ∙ ap (λ (c : Conn). connect_loop k connect (record w { upstream = with_inbound last c }))
        (wrote-wrote (frame 1 connect) (copies connect bs) read)

-- What the last packet comes to.
abbrev pub concluded : ℕ → Bytes → World → Exit Bytes × World
concluded t body w =
    if t == 4
    then refuse body w
    else if t == 2
    then (done body, w)
    else (failed (unexpected_type t), w)

-- A packet that ends the loop: no RESEND, and no ACCEPT without a body.
pub record IsLast (t : ℕ) (body : Bytes) : Type 0 where
  pub no_resend : (t == 11) ≡ false
  pub has_body : (t == 2) && is_empty body ≡ false
  pub fits : Fits body

concludes :
    (connect : Bytes) (t : ℕ) (body : Bytes) (next : Action World Bytes) (w : World)
    → IsLast t body
    → answer_connect connect (t, body) next w ≡ concluded t body w
unfolding answer_connect
concludes connect t body next w h = rw (h.no_resend) (elim (Bool-cases (t == 4)) [
  | inl e ↦ rw e refl
  | inr e ↦ rw e (elim (Bool-cases (t == 2)) [
    | inl f ↦ rw f (rw (rw f at h.has_body) refl)
    | inr f ↦ rw f refl
  ])
])

-- With a listener that asks for the CONNECT packet again some number of times, then sends any
-- other packet but an ACCEPT without a body, the loop ends: exactly that many CONNECT packets
-- more have been sent, all of them the same; an ACCEPT gives its body, a REFUSE is passed to the
-- client, and any other type is an error.
pub connect_all_outcome :
    (connect : Bytes) (bodies : List Bytes) (t : ℕ) (body rest : Bytes) (w : World)
    → All Fits bodies
    → IsLast t body
    → w.upstream.inbound ≡ resends bodies (frame t body ++ rest)
    → length (copies connect bodies) ≤ w.upstream.capacity
    → connect_all connect w
      ≡ concluded t body (record w { upstream = answered connect bodies rest w.upstream })
connect_all_outcome connect bodies t body rest w fits last e room =
    let extra = length w.upstream.inbound - length bodies in
    let count : suc (length w.upstream.inbound) ≡ length bodies + suc extra =
      omega (arith, length-resends bodies (frame t body ++ rest), ap length e) in
    let w1 = record w { upstream = answered connect bodies (frame t body ++ rest) w.upstream } in
    ap (λ f. connect_loop f connect w) count
    ∙ connect_loop-resends connect bodies (suc extra) (frame t body ++ rest) w fits e room
    ∙ unfold connect_loop in
      rw (read_tns-frame t body rest w1.upstream (last.fits) refl)
        (concludes connect t body (connect_loop extra connect) _ last)
