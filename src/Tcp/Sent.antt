-- ===== src/Tcp/Sent.antt =====
-- What `send` and the retransmission put on the wire.
use trans_proxy.Base.{
  ℕ, suc, ◌+◌, ◌-◌, ◌≤◌, ◌<◌, ◌≡◌, refl, sym, ap, subst, ◌∙◌, min, Bool-cases, inl, inr, take-min,
  none, some, true, false, List, ◌++◌, length, take, drop, lt→ltb, ◌==◌, if◌then◌else◌, length-take,
  length-append, ==_false, drop-append, add_size, size_mod, arith,
}
use trans_proxy.Ring.{write, available, free}
use trans_proxy.Ring.Valid.{used, available-eq-used}
use trans_proxy.Ring.Contents.{contents, length-contents}
use trans_proxy.Ring.Append.{write_lem}
use trans_proxy.Tcp.State.{Endpoint}
use trans_proxy.Tcp.Send.{send_loop, send_part, send, is_established}
use trans_proxy.Tcp.Timer.{fire2}
use trans_proxy.Tcp.Valid.{IsValid, Kept-IsValid, send_part-Kept}
use trans_proxy.Tcp.Segments.{Covers, Carried, send_loop-Carried}

-- The endpoint when there is something to send that the window allows.
send_part_open :
    (stack : List ℕ) (offset bytes l : ℕ) (e : Endpoint)
    → min (add_size offset bytes) e.remote_window_size ≡ l
    → offset < l
    → (send_loop (suc l) stack offset (l - offset) e).need_ack ≡ false
    → send_loop (suc l) stack offset (l - offset) e ≡ send_part stack offset bytes e
unfolding send_part
send_part_open stack offset bytes l e s h k = rw (s, lt→ltb offset l h, k) refl

-- `_send` puts on the wire the bytes of the ring from `offset` on that the window of the peer allows.
pub send_part-Carried :
    (stack : List ℕ) (offset bytes : ℕ) (e : Endpoint)
    → IsValid e
    → offset + bytes ≤ used e.out_ring
    → 0 < bytes
    → offset < e.remote_window_size
    → Carried e
        (e.local_seq + offset)
        (take
          (min (offset + bytes) e.remote_window_size - offset)
          (drop offset (contents e.out_ring)))
        (send_part stack offset bytes e)
send_part-Carried stack offset bytes e v within pos window =
    let l = min (offset + bytes) e.remote_window_size in
    let size = v.out_size in
    let fits = v.out_valid.fits in
    let sum : min (add_size offset bytes) e.remote_window_size ≡ l = omega arith in
    let larger : offset < l = omega arith in
    let c =
      send_loop-Carried (suc l) stack offset (l - offset) e v.out_valid (omega arith) (omega arith)
        (omega arith) v.seq_in in
    subst (Carried e (e.local_seq + offset) (take (l - offset) (drop offset (contents e.out_ring))))
      (send_part_open stack offset bytes l e sum larger c.acked) c

-- What `send` has done before `_send`.
abbrev stored : List ℕ → Endpoint → Endpoint
stored bytes e =
    let ring = (write e.out_ring bytes).1 in
    record e { out_ring = ring; can_send = (if free ring == 0 then false else e.can_send) }

abbrev pushed : List ℕ → List ℕ → Endpoint → Endpoint
pushed stack bytes e =
    send_part stack (available e.out_ring) (write e.out_ring bytes).0 (stored bytes e)

send_nothing :
    (stack bytes : List ℕ) (e : Endpoint)
    → is_established e.state ≡ true
    → ((write e.out_ring bytes).0 == 0) ≡ true
    → ((write e.out_ring bytes).0, stored bytes e) ≡ send stack bytes e
unfolding send
send_nothing stack bytes e h k = rw (h, k) refl

send_taken :
    (stack bytes : List ℕ) (e : Endpoint)
    → is_established e.state ≡ true
    → ((write e.out_ring bytes).0 == 0) ≡ false
    → ((write e.out_ring bytes).0, record (pushed stack bytes e) { timer2 = some 3000 })
      ≡ send stack bytes e
unfolding send
send_taken stack bytes e h k = rw (h, k) refl

-- What a call of `send` promises of its result and of the endpoint.
abbrev pub Queued : Endpoint → List ℕ → ℕ × Endpoint → Type 0
Queued e bytes (n, r) =
    (n ≡ min (length bytes) (free e.out_ring))
    × (contents r.out_ring ≡ contents e.out_ring ++ take n bytes)
    × (r.in_ring ≡ e.in_ring)
    × (r.local_seq ≡ e.local_seq)

stored_contents :
    (bytes : List ℕ) (e : Endpoint)
    → IsValid e
    → length bytes < size_mod
    → let (n, ring) = write e.out_ring bytes in contents ring ≡ contents e.out_ring ++ take n bytes
stored_contents bytes e v c =
    let (count, _, held, _) = write_lem bytes v.out_valid c in
    held
    ∙ ap (λ xs. contents e.out_ring ++ xs)
        (sym (take-min bytes (free e.out_ring)) ∙ ap (λ n. take n bytes) (sym count))

-- `send` on an ESTABLISHED connection takes as many bytes as the ring has room for and says how many;
-- they stand behind those that are not yet acknowledged, whose number does not change.
pub send_lem :
    (stack bytes : List ℕ) (e : Endpoint)
    → IsValid e
    → length bytes < size_mod
    → is_established e.state ≡ true
    → Queued e bytes (send stack bytes e)
send_lem stack bytes e v c h =
    let n = (write e.out_ring bytes).0 in
    let (count, _, _, _) = write_lem bytes v.out_valid c in
    let held = stored_contents bytes e v c in
    let (i, o, s) = send_part-Kept stack (available e.out_ring) n (stored bytes e) in
    elim (Bool-cases (n == 0)) [
      | inl no_bytes ↦
          subst (Queued e bytes) (send_nothing stack bytes e h no_bytes) (count, held, refl, refl)
      | inr some_bytes ↦
          subst (Queued e bytes) (send_taken stack bytes e h some_bytes)
            (count, ap contents o ∙ held, i, s)
    ]

held_length :
    (bytes : List ℕ) (e : Endpoint)
    → IsValid e
    → length bytes < size_mod
    → let (n, ring) = write e.out_ring bytes in
      length (contents ring) ≡ available e.out_ring + length (take n bytes)
held_length bytes e v c =
    let n = (write e.out_ring bytes).0 in
    ap length (stored_contents bytes e v c)
    ∙ length-append (contents e.out_ring) (take n bytes)
    ∙ ap (λ k. k + length (take n bytes))
        (length-contents v.out_valid ∙ sym (available-eq-used v.out_valid))

-- What `write` put behind the bytes that were there.
behind :
    (bytes : List ℕ) (e : Endpoint)
    → IsValid e
    → length bytes < size_mod
    → let (n, ring) = write e.out_ring bytes in
      drop (available e.out_ring) (contents ring) ≡ take n bytes
behind bytes e v c =
    let n = (write e.out_ring bytes).0 in
    let old = contents e.out_ring in
    let len = length-contents v.out_valid ∙ sym (available-eq-used v.out_valid) in
    ap (λ xs. drop (available e.out_ring) xs) (stored_contents bytes e v c)
    ∙ ap (λ k. drop k (old ++ take n bytes)) (sym len)
    ∙ drop-append old (take n bytes)

-- A call of `send` on an ESTABLISHED connection, with bytes and room for some, sends at once as many of
-- the bytes that it took as the window of the peer allows behind those that are not yet acknowledged:
-- in order, without gaps, from their own number on, in packets of at most 1024 bytes.
pub send-Carried :
    (stack bytes : List ℕ) (e : Endpoint)
    → IsValid e
    → length bytes < size_mod
    → is_established e.state ≡ true
    → 0 < length bytes
    → 0 < free e.out_ring
    → available e.out_ring < e.remote_window_size
    → let (n, r) = send stack bytes e in
      Carried e
        (e.local_seq + available e.out_ring)
        (take
          (min (available e.out_ring + n) e.remote_window_size - available e.out_ring)
          (take n bytes))
        r
send-Carried stack bytes e v c h pos room window =
    let n = (write e.out_ring bytes).0 in
    let offset = available e.out_ring in
    let (count, valid, _, size) = write_lem bytes v.out_valid c in
    let held = stored_contents bytes e v c in
    let e' = stored bytes e in
    let w : IsValid e' = record {
      in_valid = v.in_valid;
      out_valid = valid;
      in_size = v.in_size;
      out_size = size ∙ v.out_size;
      seq_in = v.seq_in;
    } in
    let tail = behind bytes e v c in
    let len = held_length bytes e v c in
    let within : offset + n ≤ used e'.out_ring =
      omega (arith, length-take n bytes, length-contents valid) in
    let part = send_part-Carried stack offset n e' w within (omega arith) window in
    let carried : Carried e (e.local_seq + offset)
        (take (min (offset + n) e.remote_window_size - offset) (take n bytes))
        (record (pushed stack bytes e) { timer2 = some 3000 }) =
      record {
        outs = part.outs;
        sent_behind = part.sent_behind;
        covers =
            subst
              (λ bs.
                Covers (e.local_seq + offset)
                  (take (min (offset + n) e.remote_window_size - offset) bs) part.outs)
              tail part.covers;
        acked = part.acked;
      } in
    subst
      (λ o.
        Carried e (e.local_seq + offset)
          (take (min (offset + o.0) e.remote_window_size - offset) (take o.0 bytes)) o.1)
      (send_taken stack bytes e h (==_false n 0 (omega arith))) carried

-- The retransmission timer of an ESTABLISHED connection sends again, from the first byte that is not
-- acknowledged, all of the bytes that the window of the peer allows.
pub fire2-Carried :
    (stack : List ℕ) (e : Endpoint)
    → IsValid e
    → is_established e.state ≡ true
    → 0 < available e.out_ring
    → 0 < e.remote_window_size
    → Carried e e.local_seq (take e.remote_window_size (contents e.out_ring)) (fire2 stack e)
unfolding fire2
fire2-Carried stack e v h some_bytes window =
    let n = available e.out_ring in
    let e' = record e { timer2 = none } in
    let held = available-eq-used v.out_valid in
    let w : IsValid e' = Kept-IsValid {e = e} {r = e'} (refl, refl, refl) v in
    let part = send_part-Carried stack 0 n e' w (omega arith) some_bytes window in
    let seq : e.local_seq + 0 ≡ e.local_seq = omega arith in
    let same : min (0 + n) e.remote_window_size - 0
        ≡ min (length (contents e.out_ring)) e.remote_window_size =
      omega (arith, length-contents v.out_valid, held) in
    let piece : take (min (0 + n) e.remote_window_size - 0) (contents e.out_ring)
        ≡ take e.remote_window_size (contents e.out_ring) =
      ap (λ k. take k (contents e.out_ring)) same
      ∙ take-min (contents e.out_ring) e.remote_window_size in
    rw h (record {
      outs = part.outs;
      sent_behind = part.sent_behind;
      covers =
          subst (λ s. Covers s (take e.remote_window_size (contents e.out_ring)) part.outs) seq
            (subst (λ bs. Covers (e.local_seq + 0) bs part.outs) piece part.covers);
      acked = part.acked;
    })
