-- ===== src/Tcp/Segments.antt =====
-- The packets of `_send`: together they carry the bytes of the ring, in order and without gaps.
use mathlib.Core.List.{append_assoc, append-nil}
use trans_proxy.Base.{
  ℕ, zero, suc, ◌+◌, ◌-◌, ◌%◌, ◌≤◌, ◌<◌, ◌≡◌, refl, sym, ap, subst, ◌∙◌, Bool, true, false, inl,
  inr, List, [], ◌∷◌, ◌++◌, length, take, drop, blit, ltb, ltb→lt, ltb→ge, Bool-cases,
  if◌then◌else◌, if_elim, ◌||◌, length-take, length-drop, take-blit, take-take, drop-take,
  drop-drop, add_size, arith,
}
use trans_proxy.Ring.{peek}
use trans_proxy.Ring.Valid.{IsValid, used}
use trans_proxy.Ring.Contents.{contents, length-contents}
use trans_proxy.Ring.Peek.{peek_lem}
use trans_proxy.Trans.Segment.{Flags, no_flags, word_mod}
use trans_proxy.Tcp.State.{Endpoint, Out, send_packet, packet_of}
use trans_proxy.Tcp.Send.{chunk, send_loop}

-- The packets, none with a FIN, carry the bytes `bs` from the sequence number `s` on, each at most a
-- buffer of them.
abbrev pub Covers : ℕ → List ℕ → List Out → Type 0
Covers s bs [] = bs ≡ []
Covers s bs (o ∷ os) =
    let p = o.packet.segment in
    (p.flags.fin ≡ false)
    × (p.seq ≡ s % word_mod)
    × (0 < length p.payload)
    × (length p.payload ≤ chunk)
    × (take (length p.payload) bs ≡ p.payload)
    × Covers (s + length p.payload) (drop (length p.payload) bs) os

-- What the ring holds between two places behind its start.
length_piece :
    (offset l : ℕ) (xs : List ℕ) → offset + l ≤ length xs → length (take l (drop offset xs)) ≡ l
length_piece offset l xs h = omega (arith, length-take l (drop offset xs), length-drop offset xs)

-- A packet with the first `n` bytes, before packets with the rest.
Covers-cons :
    (s n : ℕ) (bs : List ℕ) (o : Out) (os : List Out)
    → o.packet.segment.flags.fin ≡ false
    → o.packet.segment.seq ≡ s % word_mod
    → o.packet.segment.payload ≡ take n bs
    → length (take n bs) ≡ n
    → 0 < n
    → n ≤ chunk
    → Covers (s + n) (drop n bs) os
    → Covers s bs (o ∷ os)
Covers-cons s n bs o os unset number e count pos small rest =
    let k : length o.packet.segment.payload ≡ n = ap length e ∙ count in
    rw k (unset, number, pos, small, sym e, rest)

-- From `e` to `r`, packets were sent that carry the bytes `bs` from `s` on.
pub record Carried (e : Endpoint) (s : ℕ) (bs : List ℕ) (r : Endpoint) : Type 0 where
  pub outs : List Out
  pub sent_behind : r.sent ≡ e.sent ++ outs
  pub covers : Covers s bs outs
  pub acked : r.need_ack ≡ false

-- `take n` of the front of a buffer that the bytes of the ring were copied to.
copied :
    (n : ℕ) (buf : List ℕ) (offset : ℕ) (e : Endpoint)
    → IsValid e.out_ring
    → offset + n ≤ used e.out_ring
    → take n (blit buf 0 (peek e.out_ring offset n)) ≡ take n (drop offset (contents e.out_ring))
copied n buf offset e v within =
    ap (λ q. take n (blit buf 0 q))
      (peek_lem offset n v (omega arith) (omega (arith, v.small, v.fits)))
    ∙ take-blit n buf (take n (drop offset (contents e.out_ring)))
        (length_piece offset n (contents e.out_ring) (omega (arith, length-contents v)))

-- No packet of `sendPacket` has a FIN that was not asked for.
no_fin :
    (e : Endpoint) (flags : Flags) (bytes : List ℕ)
    → flags.fin ≡ false
    → (if e.need_ack || ltb 0 (length bytes) then record flags { ack = true } else flags).fin
      ≡ false
no_fin e flags bytes h =
    if_elim (λ (f : Flags). f.fin ≡ false) (e.need_ack || ltb 0 (length bytes)) _ _ (λ _. h)
      (λ _. h)

-- No packet leaves an acknowledgement to be sent.
pub acked_by : (b x : Bool) → (if b || x then false else b) ≡ false
acked_by true x = refl
acked_by false true = refl
acked_by false false = refl

-- One packet of `n` bytes, with what is sent behind it.
carry :
    (flags : Flags) (n l : ℕ) (buf : List ℕ) (offset : ℕ) (e r : Endpoint)
    → IsValid e.out_ring
    → flags.fin ≡ false
    → 0 < n
    → n ≤ chunk
    → n ≤ l
    → offset + l ≤ used e.out_ring
    → e.local_seq < word_mod
    → Carried
        (send_packet flags offset (take n (blit buf 0 (peek e.out_ring offset n))) e)
        (e.local_seq + (offset + n))
        (take (l - n) (drop (offset + n) (contents e.out_ring)))
        r
    → Carried e (e.local_seq + offset) (take l (drop offset (contents e.out_ring))) r
unfolding send_packet
carry flags n l buf offset e r v unset pos small le within seq c =
    let bytes = contents e.out_ring in
    let o : Out = record {
      id = e.id;
      packet = packet_of e flags offset (take n (blit buf 0 (peek e.out_ring offset n)));
    } in
    let number : add_size e.local_seq offset % word_mod ≡ (e.local_seq + offset) % word_mod =
      omega (arith, v.small, v.fits) in
    let count = length_piece offset n bytes (omega (arith, length-contents v)) in
    let part = take-take n l (drop offset bytes) le in
    let rest : drop n (take l (drop offset bytes)) ≡ take (l - n) (drop (offset + n) bytes) =
      drop-take n l (drop offset bytes) ∙ ap (take (l - n)) (drop-drop n offset bytes) in
    let sum : e.local_seq + offset + n ≡ e.local_seq + (offset + n) = omega arith in
    record {
      outs = o ∷ c.outs;
      sent_behind = c.sent_behind ∙ append_assoc e.sent (o ∷ []) c.outs;
      covers =
          Covers-cons (e.local_seq + offset) n (take l (drop offset bytes)) o c.outs
            (no_fin e flags o.packet.segment.payload unset) number
            (copied n buf offset e v (omega arith) ∙ sym part) (ap length part ∙ count) pos small
            (rw (rest, sum) c.covers);
      acked = c.acked;
    }

send_loop_last :
    (n : ℕ) (buf : List ℕ) (offset l : ℕ) (e : Endpoint)
    → ltb chunk l ≡ false
    → send_loop (suc n) buf offset l e
      ≡ send_packet
          (record no_flags { psh = true })
          offset
          (take l (blit buf 0 (peek e.out_ring offset l)))
          e
unfolding send_loop
send_loop_last n buf offset l e h = rw h refl

send_loop_more :
    (n : ℕ) (buf : List ℕ) (offset l : ℕ) (e : Endpoint)
    → ltb chunk l ≡ true
    → add_size offset chunk ≡ offset + chunk
    → let buf' = blit buf 0 (peek e.out_ring offset chunk) in
      send_loop n buf'
        (offset + chunk)
        (l - chunk)
        (send_packet no_flags offset (take chunk buf') e)
      ≡ send_loop (suc n) buf offset l e
unfolding send_loop
send_loop_more n buf offset l e h s = rw (h, s) refl

-- The packets of the loop carry what they are asked to send; the fuel is enough.
pub send_loop-Carried :
    (n : ℕ) (buf : List ℕ) (offset l : ℕ) (e : Endpoint)
    → IsValid e.out_ring
    → 0 < l
    → l < n
    → offset + l ≤ used e.out_ring
    → e.local_seq < word_mod
    → Carried e
        (e.local_seq + offset)
        (take l (drop offset (contents e.out_ring)))
        (send_loop n buf offset l e)
unfolding send_packet
send_loop-Carried zero buf offset l e v pos fuel within seq = absurd (omega arith)
send_loop-Carried (suc n) buf offset l e v pos fuel within seq = elim (Bool-cases (ltb chunk l)) [
  | inr last ↦
      let none_left : l - l ≡ 0 = omega arith in
      subst (Carried e (e.local_seq + offset) (take l (drop offset (contents e.out_ring))))
        (sym (send_loop_last n buf offset l e last))
        (carry (record no_flags { psh = true }) l l buf offset e _ v refl pos (ltb→ge chunk l last)
          (omega arith) within seq
          (record {
            outs = [];
            sent_behind = sym (append-nil _);
            covers = rw none_left refl;
            acked =
                acked_by e.need_ack
                  (ltb 0 (length (take l (blit buf 0 (peek e.out_ring offset l)))));
          }))
  | inl more ↦
      let larger = ltb→lt chunk l more in
      let next : add_size offset chunk ≡ offset + chunk = omega (arith, v.small, v.fits) in
      let buf' = blit buf 0 (peek e.out_ring offset chunk) in
      let e' = send_packet no_flags offset (take chunk buf') e in
      subst (Carried e (e.local_seq + offset) (take l (drop offset (contents e.out_ring))))
        (send_loop_more n buf offset l e more next)
        (carry no_flags chunk l buf offset e (send_loop n buf' (offset + chunk) (l - chunk) e') v
          refl (omega arith) (omega arith) (omega arith) within seq
          (send_loop-Carried n buf' (offset + chunk) (l - chunk) e' v (omega arith) (omega arith)
            (omega arith) seq))
]
