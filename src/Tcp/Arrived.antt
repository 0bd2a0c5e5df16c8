-- ===== src/Tcp/Arrived.antt =====
-- What a packet does to an ESTABLISHED connection.
use trans_proxy.Base.{
  ℕ, ◌^◌, ◌<◌, ◌≡◌, refl, sym, ap, ap₂, ◌∙◌, min, false, ◌&&◌, ◌==◌, ◌!=◌, inl, inr, some, List, [],
  ◌++◌, length, take, drop, ltb, leb, Bool-cases, if◌then◌else◌, if_elim, ==_iff, length-take,
  take_whole, arith,
}
use mathlib.Core.List.{append-nil}
use trans_proxy.Ring.{read, available, free}
use trans_proxy.Ring.Contents.{contents}
use trans_proxy.Ring.Append.{write_lem}
use trans_proxy.Ring.Peek.{read_lem}
use trans_proxy.Trans.Segment.{Segment, Packet, word_mod, add_word, sub_word}
use trans_proxy.Tcp.State.{established, Endpoint}
use trans_proxy.Tcp.Call.{Listener}
use trans_proxy.Tcp.Receive.{
  take_ack, take_data, on_open, on_expected, dispatch_in, dispatch_packet,
}
use trans_proxy.Tcp.Valid.{IsValid, Kept-IsValid}
use trans_proxy.Tcp.Steps.{take_ack-IsValid, take_data-IsValid, short}

-- How many bytes a packet acknowledges: none, where the number does not lie ahead by less than 2^30.
abbrev pub acked : Segment → Endpoint → ℕ
acked p e =
    let ack = sub_word p.ack_seq e.local_seq in
    if p.flags.ack && (ltb 0 ack && ltb ack (2 ^ 30)) then ack else 0

-- How many bytes of a payload fit.
abbrev pub taken : Segment → Endpoint → ℕ
taken p e = min (length p.payload) (free e.in_ring)

-- The acknowledged bytes have left the ring, and nothing else is lost.
abbrev pub Acked : Segment → Endpoint → Endpoint → Type 0
Acked p e r =
    (contents r.out_ring ≡ drop (acked p e) (contents e.out_ring))
    × (r.local_seq ≡ add_word e.local_seq (acked p e))
    × (r.in_ring ≡ e.in_ring)
    × (r.remote_seq ≡ e.remote_seq)
    × (r.state ≡ e.state)

take_ack-Acked : (p : Segment) (e : Endpoint) → IsValid e → Acked p e (take_ack p e)
unfolding take_ack
take_ack-Acked p e v =
    let ack = sub_word p.ack_seq e.local_seq in
    let ring = (read e.out_ring ack).1 in
    let (_, _, left, _) = read_lem ack v.out_valid (omega arith) in
    let e' = record e { out_ring = ring; local_seq = add_word e.local_seq ack } in
    elim (Bool-cases (p.flags.ack && (ltb 0 ack && ltb ack (2 ^ 30)))) [
      | inl b ↦ rw b (
          if_elim
            (λ (r : Endpoint).
              (contents r.out_ring ≡ drop ack (contents e.out_ring))
              × (r.local_seq ≡ add_word e.local_seq ack)
              × (r.in_ring ≡ e.in_ring)
              × (r.remote_seq ≡ e.remote_seq)
              × (r.state ≡ e.state))
            (available ring == 0) _ e' (λ _. (left, refl, refl, refl, refl))
            (λ _. (left, refl, refl, refl, refl)))
      | inr b ↦
          let s : e.local_seq ≡ add_word e.local_seq 0 = omega (arith, v.seq_in) in
          rw b (refl, s, refl, refl, refl)
    ]

-- The bytes that fit are behind those that were there.
abbrev pub Taken : Segment → Endpoint → Endpoint → Type 0
Taken p e r =
    (contents r.in_ring ≡ contents e.in_ring ++ take (taken p e) p.payload)
    × (r.remote_seq ≡ add_word e.remote_seq (taken p e))
    × (r.out_ring ≡ e.out_ring)
    × (r.local_seq ≡ e.local_seq)
    × (r.state ≡ e.state)

take_data-Taken :
    (p : Segment) (e : Endpoint) → IsValid e → e.remote_seq < word_mod → Taken p e (take_data p e)
unfolding take_data
take_data-Taken p e v seq =
    let n = taken p e in
    let (_, _, held, _) = write_lem (take n p.payload) v.in_valid (short p e v) in
    let all : take (free e.in_ring) (take n p.payload) ≡ take n p.payload =
      take_whole (free e.in_ring) (take n p.payload) (omega (arith, length-take n p.payload)) in
    elim (Bool-cases ((n != 0) && leb n (free e.in_ring))) [
      | inl b ↦ rw b (held ∙ ap (λ xs. contents e.in_ring ++ xs) all, refl, refl, refl, refl)
      | inr b ↦
          let z : n ≡ 0 = ground arith in
          let s : e.remote_seq ≡ add_word e.remote_seq n = omega (arith, seq, z) in
          let t : take n p.payload ≡ [] = ap (λ k. take k p.payload) z in
          rw b
            (sym (append-nil _) ∙ ap (λ xs. contents e.in_ring ++ xs) (sym t), s, refl, refl, refl)
    ]

-- What a packet in order does, when it comes to an ESTABLISHED connection and has no FIN.
pub record Received (p : Segment) (e r : Endpoint) : Type 0 where
  pub arrived : contents r.in_ring ≡ contents e.in_ring ++ take (taken p e) p.payload
  pub expected : r.remote_seq ≡ add_word e.remote_seq (taken p e)
  pub left : contents r.out_ring ≡ drop (acked p e) (contents e.out_ring)
  pub next_seq : r.local_seq ≡ add_word e.local_seq (acked p e)
  pub still : r.state ≡ established
  pub valid : IsValid r

dispatch_open :
    (stack : List ℕ) (user : Listener) (q : Packet) (e : Endpoint)
    → e.state ≡ established
    → q.segment.flags.fin ≡ false
    → q.segment.seq ≡ e.remote_seq
    → dispatch_packet stack user q e
      ≡ some (
          take_data q.segment
            (take_ack q.segment (record e { remote_window_size = q.segment.window_size })))
unfolding dispatch_packet dispatch_in on_expected on_open
dispatch_open stack user q e h f s = rw (h, (==_iff q.segment.seq e.remote_seq).1 s, f) refl

-- A packet in order, with no FIN, that comes to an ESTABLISHED connection: as much of its payload as
-- fits comes behind what was received, the number that is expected next moves on by as much, and the
-- bytes that it acknowledges, fewer than 2^30, leave the front of what is to be sent.
pub received_lem :
    (stack : List ℕ) (user : Listener) (q : Packet) (e : Endpoint)
    → IsValid e
    → e.remote_seq < word_mod
    → e.state ≡ established
    → q.segment.flags.fin ≡ false
    → q.segment.seq ≡ e.remote_seq
    → (r : Endpoint) × (dispatch_packet stack user q e ≡ some r) × Received q.segment e r
received_lem stack user q e v small h f s =
    let p = q.segment in
    let e' = record e { remote_window_size = p.window_size } in
    let v' = Kept-IsValid {e = e} {r = e'} (refl, refl, refl) v in
    let mid = take_ack p e' in
    let (a_out, a_seq, a_in, a_remote, a_state) = take_ack-Acked p e' v' in
    let mid_v = take_ack-IsValid p e' v' in
    let (d_in, d_remote, d_out, d_seq, d_state) = take_data-Taken p mid mid_v (rw a_remote small) in
    let same : taken p mid ≡ taken p e = ap (λ ring. min (length p.payload) (free ring)) a_in in
    (
      take_data p mid,
      dispatch_open stack user q e h f s,
      record {
        arrived = d_in ∙ ap₂ (λ ring n. contents ring ++ take n p.payload) a_in same;
        expected = d_remote ∙ ap₂ add_word a_remote same;
        left = ap contents d_out ∙ a_out;
        next_seq = d_seq ∙ a_seq;
        still = d_state ∙ a_state ∙ h;
        valid = take_data-IsValid p mid mid_v;
      },
    )
