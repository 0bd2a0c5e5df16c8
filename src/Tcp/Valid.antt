-- ===== src/Tcp/Valid.antt =====
-- The rings of a connection stay valid, whatever packets, timers and calls come.
use trans_proxy.Base.{
  ℕ, zero, suc, ◌-◌, ◌<◌, ◌≡◌, refl, sym, subst, ◌∙◌, min, Bool, false, ◌==◌, some, List, [], ◌∷◌,
  length, take, blit, ltb, if◌then◌else◌, if_elim, add_size, size_mod,
}
use trans_proxy.Ring.{Ring, peek, write, available, free}
use trans_proxy.Ring.Valid
use trans_proxy.Ring.Append.{write_lem}
use trans_proxy.Ring.Peek.{read_lem}
use trans_proxy.Trans.Segment.{no_flags, word_mod}
use trans_proxy.Tcp.State.{
  State, closed, listen, syn_sent, syn_recv, established, last_ack, fin_wait_1, fin_wait_2, closing,
  time_wait, Endpoint, send_packet, ring_size,
}
use trans_proxy.Tcp.Send.{
  chunk, send_loop, send_part, send, recv, wait_to_recv, wait_to_send, close, is_established,
}
use trans_proxy.Tcp.Call.{
  Call, call_recv, call_send, call_wait_to_recv, call_wait_to_send, call_close, call_set_listener,
  Listener, run_call, run_calls,
}

-- Both rings are valid and have the size that the constructor gives them, and `_localSeq` is a
-- `uint32_t`.
pub record IsValid (e : Endpoint) : Type 0 where
  pub in_valid : Valid.IsValid e.in_ring
  pub out_valid : Valid.IsValid e.out_ring
  pub in_size : e.in_ring.buffer_size ≡ ring_size
  pub out_size : e.out_ring.buffer_size ≡ ring_size
  pub seq_in : e.local_seq < word_mod

-- A step that leaves the rings and the number of the first unacknowledged byte alone.
abbrev pub Kept : Endpoint → Endpoint → Type 0
Kept e r = (r.in_ring ≡ e.in_ring) × (r.out_ring ≡ e.out_ring) × (r.local_seq ≡ e.local_seq)

pub Kept-IsValid : {e r : Endpoint} → Kept e r → IsValid e → IsValid r
Kept-IsValid (i, o, s) v = record {
  in_valid = subst Valid.IsValid (sym i) v.in_valid;
  out_valid = subst Valid.IsValid (sym o) v.out_valid;
  in_size = rw i v.in_size;
  out_size = rw o v.out_size;
  seq_in = rw s v.seq_in;
}

pub if-IsValid : (b : Bool) (x y : Endpoint) → IsValid x → IsValid y → IsValid (if b then x else y)
if-IsValid b x y v w = if_elim IsValid b x y (λ _. v) (λ _. w)

pub if-Kept :
    (e : Endpoint) (b : Bool) (x y : Endpoint) → Kept e x → Kept e y → Kept e (if b then x else y)
if-Kept e b x y v w = if_elim (Kept e) b x y (λ _. v) (λ _. w)

send_loop-Kept :
    (n : ℕ) (buf : List ℕ) (offset l : ℕ) (e : Endpoint) → Kept e (send_loop n buf offset l e)
unfolding send_loop send_packet
send_loop-Kept zero buf offset l e = (refl, refl, refl)
send_loop-Kept (suc n) buf offset l e =
    let buf' = blit buf 0 (peek e.out_ring offset chunk) in
    if-Kept e (ltb chunk l) _ _
      (send_loop-Kept n buf' (add_size offset chunk) (l - chunk)
        (send_packet no_flags offset (take chunk buf') e))
      (refl, refl, refl)

pub send_part-Kept :
    (stack : List ℕ) (offset bytes : ℕ) (e : Endpoint) → Kept e (send_part stack offset bytes e)
unfolding send_part send_packet
send_part-Kept stack offset bytes e =
    let l = min (add_size offset bytes) e.remote_window_size in
    let e' = (if ltb offset l then send_loop (suc l) stack offset (l - offset) e else e) in
    let kept =
      if-Kept e (ltb offset l) _ e (send_loop-Kept (suc l) stack offset (l - offset) e)
        (refl, refl, refl) in
    if-Kept e e'.need_ack (send_packet no_flags 0 [] e') e' kept kept

-- The byte counts of a call are `size_t`.
abbrev pub Counted : Call → Type 0
Counted (call_recv n) = n < size_mod
Counted (call_send bytes) = length bytes < size_mod
Counted c = Unit {0}

abbrev pub AllCounted : List Call → Type 0
AllCounted [] = Unit {0}
AllCounted (c ∷ cs) = Counted c × AllCounted cs

-- The calls of a user have counts that are `size_t`.
pub record CountedUser (user : Listener) : Type 0 where
  pub server_connected : (e : Endpoint) → AllCounted (user.on_server_connected e).1
  pub connected : (e : Endpoint) → AllCounted (user.on_connected e)
  pub to_recv : (e : Endpoint) → AllCounted (user.on_to_recv e)
  pub to_send : (e : Endpoint) → AllCounted (user.on_to_send e)

-- A new ring for what is sent, valid and of the same size.
with_out :
    (e : Endpoint) (ring : Ring) (flag : Bool)
    → Valid.IsValid ring
    → ring.buffer_size ≡ e.out_ring.buffer_size
    → IsValid e
    → IsValid (record e { out_ring = ring; can_send = flag })
with_out e ring flag r k v = record {
  in_valid = v.in_valid;
  out_valid = r;
  in_size = v.in_size;
  out_size = k ∙ v.out_size;
  seq_in = v.seq_in;
}

abbrev ValidAfter : ℕ × Endpoint → Type 0
ValidAfter o = IsValid o.1

send-IsValid :
    (stack bytes : List ℕ) (e : Endpoint)
    → length bytes < size_mod
    → IsValid e
    → IsValid (send stack bytes e).1
unfolding send
send-IsValid stack bytes e c v =
    let (_, valid, _, size) = write_lem bytes v.out_valid c in
    let offset = available e.out_ring in
    let r = (write e.out_ring bytes).0 in
    let ring = (write e.out_ring bytes).1 in
    let flag = (if free ring == 0 then false else e.can_send) in
    let e' = record e { out_ring = ring; can_send = flag } in
    let v' = with_out e ring flag valid size v in
    let k =
      Kept-IsValid {e = e'} {r = send_part stack offset r e'} (send_part-Kept stack offset r e')
        v' in
    if_elim ValidAfter (is_established e.state) _ _
      (λ _. if-IsValid (r == 0) e' _ v' (record {
        in_valid = k.in_valid;
        out_valid = k.out_valid;
        in_size = k.in_size;
        out_size = k.out_size;
        seq_in = k.seq_in;
      }))
      (λ _. v)

abbrev ValidBehind : List ℕ × Endpoint → Type 0
ValidBehind o = IsValid o.1

recv-IsValid : (n : ℕ) (e : Endpoint) → n < size_mod → IsValid e → IsValid (recv n e).1
unfolding recv
recv-IsValid n e c v =
    let (_, valid, _, size) = read_lem n v.in_valid c in
    if_elim ValidBehind (is_established e.state) _ _
      (λ _. record {
        in_valid = valid;
        out_valid = v.out_valid;
        in_size = size ∙ v.in_size;
        out_size = v.out_size;
        seq_in = v.seq_in;
      })
      (λ _. v)

close-Kept : (e : Endpoint) → Kept e (close e)
unfolding close
close-Kept e = by_state e.state
  where
    e' : Endpoint
    e' = record e { has_listener = false }

    by_state :
        (s : State)
        → Kept e (elim s [
          | fin_wait_1 ↦ e'
          | fin_wait_2 ↦ e'
          | closing ↦ e'
          | _ ↦ record e' { state = fin_wait_1; retry_count = 0; timer1 = some 0 }
        ])
    by_state fin_wait_1 = (refl, refl, refl)
    by_state fin_wait_2 = (refl, refl, refl)
    by_state closing = (refl, refl, refl)
    by_state closed = (refl, refl, refl)
    by_state listen = (refl, refl, refl)
    by_state syn_sent = (refl, refl, refl)
    by_state syn_recv = (refl, refl, refl)
    by_state established = (refl, refl, refl)
    by_state last_ack = (refl, refl, refl)
    by_state time_wait = (refl, refl, refl)

-- A call of a user keeps the rings valid.
pub run_call-IsValid :
    (stack : List ℕ) (c : Call) (e : Endpoint)
    → Counted c
    → IsValid e
    → IsValid (run_call stack c e)
unfolding run_call wait_to_recv wait_to_send
run_call-IsValid stack (call_recv n) e c v = recv-IsValid n e c v
run_call-IsValid stack (call_send bytes) e c v = send-IsValid stack bytes e c v
run_call-IsValid stack call_wait_to_recv e c v =
    if-IsValid (is_established e.state) _ e (Kept-IsValid (refl, refl, refl) v) v
run_call-IsValid stack call_wait_to_send e c v =
    if-IsValid (is_established e.state) _ e (Kept-IsValid (refl, refl, refl) v) v
run_call-IsValid stack call_close e c v = Kept-IsValid (close-Kept e) v
run_call-IsValid stack (call_set_listener given) e c v = Kept-IsValid (refl, refl, refl) v

pub run_calls-IsValid :
    (stack : List ℕ) (cs : List Call) (e : Endpoint)
    → AllCounted cs
    → IsValid e
    → IsValid (run_calls stack cs e)
unfolding run_calls
run_calls-IsValid stack [] e c v = v
run_calls-IsValid stack (c ∷ cs) e (k, ks) v =
    run_calls-IsValid stack cs (run_call stack c e) ks (run_call-IsValid stack c e k v)
