-- ===== src/Tcp/Steps.antt =====
-- Packets and timers keep a connection valid.
use trans_proxy.Base.{
  ℕ, ◌+◌, ◌%◌, ◌^◌, ◌≤◌, ◌<◌, ◌≡◌, refl, ◌∙◌, min, Bool, true, false, ◌&&◌, ◌==◌, ◌!=◌, Option,
  none, some, List, [], length, length-take, take, ltb, leb, if◌then◌else◌, if_elim, size_mod,
  arith,
}
use trans_proxy.Map.{◌>>=◌}
use trans_proxy.Ring.{Ring, read, write, available, free}
use trans_proxy.Ring.Valid
use trans_proxy.Ring.Valid.{free-eq-sub}
use trans_proxy.Ring.Append.{write_lem}
use trans_proxy.Ring.Peek.{read_lem}
use trans_proxy.Trans.Segment.{Flags, no_flags, Segment, Packet, word_mod, add_word, sub_word}
use trans_proxy.Tcp.State.{
  State, closed, listen, syn_sent, syn_recv, established, last_ack, fin_wait_1, fin_wait_2, closing,
  time_wait, Endpoint, send_packet, ack_flag,
}
use trans_proxy.Tcp.Send.{send_part, is_established}
use trans_proxy.Tcp.Call.{Call, Listener, run_calls, tell}
use trans_proxy.Tcp.Receive.{
  acks_next, on_listen, on_last, on_fin_wait_1, on_fin_wait_2, on_fin, on_syn_recv, on_syn_sent,
  take_ack, take_data, on_open, on_expected, dispatch_in, dispatch_packet, step_local,
}
use trans_proxy.Tcp.Timer.{
  Left, deleted, running, give_up, retry, retry_closing, tell_recv, tell_send, timeout_in, fire1,
  fire2,
}
use trans_proxy.Tcp.Valid.{
  IsValid, Kept, Kept-IsValid, if-IsValid, if-Kept, send_part-Kept, AllCounted, CountedUser,
  run_calls-IsValid,
}

-- What a step gives is valid, where it gives something.
abbrev pub AllValid : Option Endpoint → Type 0
AllValid none = Unit {0}
AllValid (some e) = IsValid e

abbrev pub LeftValid : Option Left → Type 0
LeftValid none = Unit {0}
LeftValid (some deleted) = Unit {0}
LeftValid (some (running e)) = IsValid e

if-AllValid :
    (b : Bool) (x y : Option Endpoint) → AllValid x → AllValid y → AllValid (if b then x else y)
if-AllValid b x y v w = if_elim AllValid b x y (λ _. v) (λ _. w)

with_local : (e : Endpoint) (s : ℕ) → IsValid e → IsValid (record e { local_seq = s % word_mod })
with_local e s v = record {
  in_valid = v.in_valid;
  out_valid = v.out_valid;
  in_size = v.in_size;
  out_size = v.out_size;
  seq_in = omega arith;
}

with_in :
    (e : Endpoint) (ring : Ring)
    → Valid.IsValid ring
    → ring.buffer_size ≡ e.in_ring.buffer_size
    → IsValid e
    → IsValid (record e { in_ring = ring })
with_in e ring r k v = record {
  in_valid = r;
  out_valid = v.out_valid;
  in_size = k ∙ v.in_size;
  out_size = v.out_size;
  seq_in = v.seq_in;
}

on_last-IsValid : (p : Segment) (e : Endpoint) → IsValid e → IsValid (on_last p e)
unfolding on_last
on_last-IsValid p e v =
    if-IsValid (acks_next p e) _ e
      (Kept-IsValid {e = step_local e} (refl, refl, refl) (with_local e (e.local_seq + 1) v)) v

on_fin_wait_1-IsValid : (p : Segment) (e : Endpoint) → IsValid e → IsValid (on_fin_wait_1 p e)
unfolding on_fin_wait_1 send_packet
on_fin_wait_1-IsValid p e v =
    let w = with_local e (e.local_seq + 1) v in
    if-IsValid (acks_next p e) _ _ (Kept-IsValid {e = step_local e} (refl, refl, refl) w) (
      if-IsValid p.flags.fin _ _ (Kept-IsValid {e = e} (refl, refl, refl) v) (
        if-IsValid (p.flags.fin && acks_next p e) _ e
          (Kept-IsValid {e = step_local e} (refl, refl, refl) w) v))

on_fin_wait_2-IsValid : (p : Segment) (e : Endpoint) → IsValid e → IsValid (on_fin_wait_2 p e)
unfolding on_fin_wait_2 send_packet
on_fin_wait_2-IsValid p e v =
    if-IsValid p.flags.fin _ e (Kept-IsValid {e = e} (refl, refl, refl) v) v

tell-AllValid :
    (stack : List ℕ) (f : Endpoint → List Call) (e : Endpoint)
    → ((e : Endpoint) → AllCounted (f e))
    → IsValid e
    → AllValid (tell stack f e)
unfolding tell
tell-AllValid stack f e c v =
    if-AllValid e.has_listener _ none (run_calls-IsValid stack (f e) e (c e) v) tt

on_syn_recv-IsValid :
    (stack : List ℕ) (user : Listener) (p : Segment) (e : Endpoint)
    → CountedUser user
    → IsValid e
    → IsValid (on_syn_recv stack user p e)
unfolding on_syn_recv
on_syn_recv-IsValid stack user p e c v =
    let e' = record (step_local e) { state = established } in
    let w =
      Kept-IsValid {e = step_local e} {r = e'} (refl, refl, refl)
        (with_local e (e.local_seq + 1) v) in
    let calls = (user.on_server_connected e').1 in
    let k = run_calls-IsValid stack calls e' (c.server_connected e') w in
    if-IsValid (acks_next p e) _ e
      (Kept-IsValid {e = run_calls stack calls e'} (refl, refl, refl) k) v

on_syn_sent-AllValid :
    (stack : List ℕ) (user : Listener) (p : Segment) (e : Endpoint)
    → CountedUser user
    → IsValid e
    → AllValid (on_syn_sent stack user p e)
unfolding on_syn_sent send_packet
on_syn_sent-AllValid stack user p e c v =
    let e' = record (send_packet ack_flag 0 [] (step_local e)) { state = established } in
    let w =
      Kept-IsValid {e = step_local e} {r = e'} (refl, refl, refl)
        (with_local e (e.local_seq + 1) v) in
    if-AllValid (p.flags.syn && acks_next p e) _ (some e)
      (tell-AllValid stack user.on_connected e' c.connected w) v

pub take_ack-IsValid : (p : Segment) (e : Endpoint) → IsValid e → IsValid (take_ack p e)
unfolding take_ack
take_ack-IsValid p e v =
    let ack = sub_word p.ack_seq e.local_seq in
    let ring = (read e.out_ring ack).1 in
    let e' = record e { out_ring = ring; local_seq = add_word e.local_seq ack } in
    let (_, valid, _, size) = read_lem ack v.out_valid (omega arith) in
    let w : IsValid e' = record {
      in_valid = v.in_valid;
      out_valid = valid;
      in_size = v.in_size;
      out_size = size ∙ v.out_size;
      seq_in = omega arith;
    } in
    if-IsValid (p.flags.ack && (ltb 0 ack && ltb ack (2 ^ 30))) _ e
      (if-IsValid (available ring == 0) _ e' (Kept-IsValid {e = e'} (refl, refl, refl) w) w) v

-- What of a payload fits is short.
pub short :
    (p : Segment) (e : Endpoint)
    → IsValid e
    → length (take (min (length p.payload) (free e.in_ring)) p.payload) < size_mod
short p e v =
    let n = min (length p.payload) (free e.in_ring) in
    let b : n ≤ free e.in_ring = omega arith in
    omega (arith, length-take n p.payload, free-eq-sub v.in_valid, v.in_size)

pub take_data-IsValid : (p : Segment) (e : Endpoint) → IsValid e → IsValid (take_data p e)
unfolding take_data
take_data-IsValid p e v =
    let bytes = min (length p.payload) (free e.in_ring) in
    let ring = (write e.in_ring (take bytes p.payload)).1 in
    let e' = record e { in_ring = ring } in
    let (_, valid, _, size) = write_lem (take bytes p.payload) v.in_valid (short p e v) in
    let w = with_in e ring valid size v in
    if-IsValid ((bytes != 0) && leb bytes (free e.in_ring)) _ e
      (Kept-IsValid {e = e'} (refl, refl, refl) w) v

on_open-AllValid :
    (s : State) (stack : List ℕ) (user : Listener) (p : Segment) (e : Endpoint)
    → CountedUser user
    → IsValid e
    → AllValid (on_open s stack user p e)
unfolding on_open
on_open-AllValid syn_recv stack user p e c v = on_syn_recv-IsValid stack user p e c v
on_open-AllValid syn_sent stack user p e c v = on_syn_sent-AllValid stack user p e c v
on_open-AllValid established stack user p e c v =
    take_data-IsValid p (take_ack p e) (take_ack-IsValid p e v)
on_open-AllValid closed stack user p e c v = v
on_open-AllValid listen stack user p e c v = v
on_open-AllValid last_ack stack user p e c v = v
on_open-AllValid fin_wait_1 stack user p e c v = v
on_open-AllValid fin_wait_2 stack user p e c v = v
on_open-AllValid closing stack user p e c v = v
on_open-AllValid time_wait stack user p e c v = v

-- Below the test of FLAG_FIN.
fin_first :
    (s : State) (stack : List ℕ) (user : Listener) (p : Segment) (e : Endpoint)
    → CountedUser user
    → IsValid e
    → AllValid (if p.flags.fin then some (on_fin e) else on_open s stack user p e)
fin_first s stack user p e c v =
    if-AllValid p.flags.fin _ _ (Kept-IsValid {e = e} (refl, refl, refl) v)
      (on_open-AllValid s stack user p e c v)

on_expected-AllValid :
    (s : State) (stack : List ℕ) (user : Listener) (p : Segment) (e : Endpoint)
    → CountedUser user
    → IsValid e
    → AllValid (on_expected s stack user p e)
unfolding on_expected
on_expected-AllValid last_ack stack user p e c v = on_last-IsValid p e v
on_expected-AllValid fin_wait_1 stack user p e c v = on_fin_wait_1-IsValid p e v
on_expected-AllValid fin_wait_2 stack user p e c v = on_fin_wait_2-IsValid p e v
on_expected-AllValid closing stack user p e c v = on_last-IsValid p e v
on_expected-AllValid closed stack user p e c v = fin_first closed stack user p e c v
on_expected-AllValid listen stack user p e c v = fin_first listen stack user p e c v
on_expected-AllValid syn_sent stack user p e c v = fin_first syn_sent stack user p e c v
on_expected-AllValid syn_recv stack user p e c v = fin_first syn_recv stack user p e c v
on_expected-AllValid established stack user p e c v = fin_first established stack user p e c v
on_expected-AllValid time_wait stack user p e c v = fin_first time_wait stack user p e c v

-- What `dispatchPacket` does in the states but LISTEN.
in_order :
    (s : State) (stack : List ℕ) (user : Listener) (q : Packet) (e : Endpoint)
    → CountedUser user
    → IsValid e
    → AllValid
        (if q.segment.seq == e.remote_seq then on_expected s stack user q.segment e else some e)
in_order s stack user q e c v =
    if-AllValid (q.segment.seq == e.remote_seq) _ (some e)
      (on_expected-AllValid s stack user q.segment e c v) v

dispatch_in-AllValid :
    (s : State) (stack : List ℕ) (user : Listener) (q : Packet) (e : Endpoint)
    → CountedUser user
    → IsValid e
    → AllValid (dispatch_in s stack user q e)
unfolding dispatch_in on_listen
dispatch_in-AllValid listen stack user q e c v =
    if-AllValid q.segment.flags.syn _ none (Kept-IsValid {e = e} (refl, refl, refl) v) tt
dispatch_in-AllValid closed stack user q e c v = in_order closed stack user q e c v
dispatch_in-AllValid syn_sent stack user q e c v = in_order syn_sent stack user q e c v
dispatch_in-AllValid syn_recv stack user q e c v = in_order syn_recv stack user q e c v
dispatch_in-AllValid established stack user q e c v = in_order established stack user q e c v
dispatch_in-AllValid last_ack stack user q e c v = in_order last_ack stack user q e c v
dispatch_in-AllValid fin_wait_1 stack user q e c v = in_order fin_wait_1 stack user q e c v
dispatch_in-AllValid fin_wait_2 stack user q e c v = in_order fin_wait_2 stack user q e c v
dispatch_in-AllValid closing stack user q e c v = in_order closing stack user q e c v
dispatch_in-AllValid time_wait stack user q e c v = in_order time_wait stack user q e c v

pub dispatch_packet-AllValid :
    (stack : List ℕ) (user : Listener) (q : Packet) (e : Endpoint)
    → CountedUser user
    → IsValid e
    → AllValid (dispatch_packet stack user q e)
unfolding dispatch_packet
dispatch_packet-AllValid stack user q e c v =
    dispatch_in-AllValid e.state stack user q
      (record e { remote_window_size = q.segment.window_size }) c
      (Kept-IsValid {e = e} (refl, refl, refl) v)

give_up-Kept : (e : Endpoint) → Kept e (give_up e)
unfolding give_up send_packet
give_up-Kept e = (refl, refl, refl)

retry-Kept : (flags : Flags) (e : Endpoint) → Kept e (retry flags e)
unfolding retry give_up send_packet
retry-Kept flags e = if-Kept e (ltb e.retry_count 3) _ _ (refl, refl, refl) (refl, refl, refl)

retry_closing-Kept : (e : Endpoint) → Kept e (retry_closing e)
unfolding retry_closing give_up send_packet
retry_closing-Kept e = if-Kept e (ltb e.retry_count 3) _ _ (refl, refl, refl) (refl, refl, refl)

tell_recv-AllValid :
    (stack : List ℕ) (user : Listener) (e : Endpoint)
    → CountedUser user
    → IsValid e
    → AllValid (tell_recv stack user e)
unfolding tell_recv
tell_recv-AllValid stack user e c v =
    if-AllValid (e.need_recv && e.can_recv) _ (some e)
      (tell-AllValid stack user.on_to_recv (record e { need_recv = false }) c.to_recv
        (Kept-IsValid {e = e} (refl, refl, refl) v))
      v

tell_send-AllValid :
    (stack : List ℕ) (user : Listener) (e : Endpoint)
    → CountedUser user
    → IsValid e
    → AllValid (tell_send stack user e)
unfolding tell_send
tell_send-AllValid stack user e c v =
    if-AllValid (e.need_send && e.can_send) _ (some e)
      (tell-AllValid stack user.on_to_send (record e { need_send = false }) c.to_send
        (Kept-IsValid {e = e} (refl, refl, refl) v))
      v

-- One step behind another.
then-LeftValid :
    (o : Option Endpoint) (f : Endpoint → Option Left)
    → AllValid o
    → ((e : Endpoint) → IsValid e → LeftValid (f e))
    → LeftValid (o >>= f)
then-LeftValid none f v w = tt
then-LeftValid (some e) f v w = w e v

timeout_in-LeftValid :
    (s : State) (stack : List ℕ) (user : Listener) (e : Endpoint)
    → CountedUser user
    → IsValid e
    → LeftValid (timeout_in s stack user e)
unfolding timeout_in
timeout_in-LeftValid syn_sent stack user e c v =
    Kept-IsValid (retry-Kept (record no_flags { syn = true }) e) v
timeout_in-LeftValid syn_recv stack user e c v =
    Kept-IsValid (retry-Kept (record ack_flag { syn = true }) e) v
timeout_in-LeftValid established stack user e c v =
    then-LeftValid (tell_recv stack user e) _ (tell_recv-AllValid stack user e c v) λ e1 v1.
      then-LeftValid (tell_send stack user e1) _ (tell_send-AllValid stack user e1 c v1) λ e2 v2. v2
timeout_in-LeftValid last_ack stack user e c v =
    Kept-IsValid (retry-Kept (record ack_flag { fin = true }) e) v
timeout_in-LeftValid fin_wait_1 stack user e c v =
    Kept-IsValid (retry-Kept (record ack_flag { fin = true }) e) v
timeout_in-LeftValid fin_wait_2 stack user e c v = Kept-IsValid (give_up-Kept e) v
timeout_in-LeftValid closing stack user e c v = Kept-IsValid (retry_closing-Kept e) v
timeout_in-LeftValid closed stack user e c v = tt
timeout_in-LeftValid listen stack user e c v = v
timeout_in-LeftValid time_wait stack user e c v = v

pub fire1-LeftValid :
    (stack : List ℕ) (user : Listener) (e : Endpoint)
    → CountedUser user
    → IsValid e
    → LeftValid (fire1 stack user e)
unfolding fire1
fire1-LeftValid stack user e c v =
    timeout_in-LeftValid e.state stack user (record e { timer1 = none }) c
      (Kept-IsValid {e = e} (refl, refl, refl) v)

pub fire2-IsValid : (stack : List ℕ) (e : Endpoint) → IsValid e → IsValid (fire2 stack e)
unfolding fire2
fire2-IsValid stack e v =
    let e' = record e { timer2 = none } in
    let w = Kept-IsValid {e = e} {r = e'} (refl, refl, refl) v in
    let r = send_part stack 0 (available e.out_ring) e' in
    let k = Kept-IsValid {e = e'} {r = r} (send_part-Kept stack 0 (available e.out_ring) e') w in
    if-IsValid (is_established e.state) _ e' (Kept-IsValid {e = r} (refl, refl, refl) k) w
