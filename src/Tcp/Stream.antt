-- ===== src/Tcp/Stream.antt =====
-- Two ESTABLISHED connections: the packets that the one sends bring its bytes to the other.
use mathlib.Core.List.{append-nil, append_assoc}
use trans_proxy.Base.{
  ℕ, ◌+◌, ◌-◌, ◌%◌, ◌≤◌, ◌<◌, ◌≡◌, refl, sym, ap, ◌∙◌, min, true, Option, some, List, [], ◌∷◌, ◌++◌,
  length, take, drop, length-take, length-drop, length-append, take_whole, take-append-drop,
  size_mod, arith,
}
use trans_proxy.Map.{◌>>=◌}
use trans_proxy.Ring.{available, free}
use trans_proxy.Ring.Valid.{free-eq-sub}
use trans_proxy.Ring.Contents.{contents, length-contents}
use trans_proxy.Trans.Segment.{word_mod}
use trans_proxy.Tcp.State.{established, Endpoint, Out}
use trans_proxy.Tcp.Send.{send, is_established}
use trans_proxy.Tcp.Call.{Listener}
use trans_proxy.Tcp.Receive.{dispatch_packet}
use trans_proxy.Tcp.Valid.{IsValid}
use trans_proxy.Tcp.Segments.{Covers}
use trans_proxy.Tcp.Sent.{send-Carried}
use trans_proxy.Tcp.Arrived.{taken, received_lem}

-- Packets that come one after the other.
unfoldable pub deliver : List ℕ → Listener → List Out → Endpoint → Option Endpoint
unfolding dispatch_packet
deliver stack user [] e = some e
deliver stack user (o ∷ os) e = dispatch_packet stack user o.packet e >>= deliver stack user os

-- What is left of the room of the receiver.
room :
    {e r : Endpoint} (xs : List ℕ)
    → IsValid e
    → IsValid r
    → contents r.in_ring ≡ contents e.in_ring ++ xs
    → free r.in_ring + length xs ≡ free e.in_ring
room {e} {r} xs v w h =
    let all = ap length h ∙ length-append (contents e.in_ring) xs in
    omega (
      arith,
      all,
      length-contents v.in_valid,
      length-contents w.in_valid,
      free-eq-sub v.in_valid,
      free-eq-sub w.in_valid,
      v.in_size,
      w.in_size,
      w.in_valid.fits,
    )

-- The connection behind the packets.
pub record Delivered (s : ℕ) (bs : List ℕ) (e r : Endpoint) : Type 0 where
  pub arrived : contents r.in_ring ≡ contents e.in_ring ++ bs
  pub expected : r.remote_seq ≡ (s + length bs) % word_mod
  pub still : r.state ≡ established
  pub valid : IsValid r

-- The packets that carry bytes from the number on that is expected bring all of them, in order, to a
-- connection with room for them.
pub deliver-Delivered :
    (stack : List ℕ) (user : Listener) (s : ℕ) (bs : List ℕ) (os : List Out) (e : Endpoint)
    → Covers s bs os
    → IsValid e
    → e.state ≡ established
    → e.remote_seq ≡ s % word_mod
    → length bs ≤ free e.in_ring
    → (r : Endpoint) × (deliver stack user os e ≡ some r) × Delivered s bs e r
unfolding deliver
deliver-Delivered stack user s bs [] e c v h seq fits = (
  e,
  refl,
  record {
    arrived = sym (ap (λ xs. contents e.in_ring ++ xs) c ∙ append-nil _);
    expected =
        seq ∙ (let n : s ≡ s + length bs = omega (arith, ap length c) in ap (λ k. k % word_mod) n);
    still = h;
    valid = v;
  },
)
deliver-Delivered stack user s bs (o ∷ os) e (fin, number, pos, small, front, rest) v h seq fits =
    let p = o.packet.segment in
    let n = length p.payload in
    let len : n ≤ length bs = omega (arith, length-take n bs, ap length front) in
    let (r, e1, got) =
      received_lem stack user o.packet e v (omega (arith, seq)) h fin (number ∙ sym seq) in
    let t : taken p e ≡ n = omega arith in
    let bytes : take (taken p e) p.payload ≡ p.payload =
      take_whole (taken p e) p.payload (omega arith) in
    let arrived = got.arrived ∙ ap (λ xs. contents e.in_ring ++ xs) bytes in
    let left = room p.payload v got.valid arrived in
    let next : r.remote_seq ≡ (s + n) % word_mod = omega (arith, got.expected, t, seq) in
    let (r', e2, all) =
      deliver-Delivered stack user (s + n) (drop n bs) os r rest got.valid got.still next
        (omega (arith, length-drop n bs)) in
    (
      r',
      rw e1 e2,
      record {
        arrived =
            all.arrived
            ∙ ap (λ xs. xs ++ drop n bs) arrived
            ∙ append_assoc (contents e.in_ring) p.payload (drop n bs)
            ∙ ap (λ xs. contents e.in_ring ++ xs)
                (ap (λ xs. xs ++ drop n bs) (sym front) ∙ take-append-drop n bs);
        expected =
            all.expected
            ∙ (let m : s + n + length (drop n bs) ≡ s + length bs =
                  omega (arith, length-drop n bs) in
                ap (λ k. k % word_mod) m);
        still = all.still;
        valid = all.valid;
      },
    )

-- What one call of `send` sends comes to the other side: where that side expects the next number, has
-- room, and the packets come in order, what it has received grows by just the bytes that `send` took and
-- the window allows.
pub stream_lem :
    (stack bytes : List ℕ) (user : Listener) (a b : Endpoint)
    → IsValid a
    → IsValid b
    → length bytes < size_mod
    → is_established a.state ≡ true
    → b.state ≡ established
    → 0 < length bytes
    → 0 < free a.out_ring
    → available a.out_ring < a.remote_window_size
    → b.remote_seq ≡ (a.local_seq + available a.out_ring) % word_mod
    → length bytes ≤ free b.in_ring
    → let (n, a') = send stack bytes a in
      let piece =
        take
          (min (available a.out_ring + n) a.remote_window_size - available a.out_ring)
          (take n bytes) in
      (outs : List Out) × (a'.sent ≡ a.sent ++ outs)
      × (b' : Endpoint) × (deliver stack user outs b ≡ some b')
      × Delivered (a.local_seq + available a.out_ring) piece b b'
stream_lem stack bytes user a b v w c h k pos space window seq fits =
    let n = (send stack bytes a).0 in
    let limit = min (available a.out_ring + n) a.remote_window_size - available a.out_ring in
    let piece = take limit (take n bytes) in
    let sent = send-Carried stack bytes a v c h pos space window in
    let short : length piece ≤ length bytes =
      omega (arith, length-take limit (take n bytes), length-take n bytes) in
    let (b', run, got) =
      deliver-Delivered stack user (a.local_seq + available a.out_ring) piece sent.outs b
        sent.covers w k seq (omega arith) in
    (sent.outs, sent.sent_behind, b', run, got)
