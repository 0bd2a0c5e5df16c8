-- ===== src/Tcp/Receive.antt =====
-- `dispatchPacket`: a packet comes to a connection.
use trans_proxy.Base.{
  ℕ, List, [], ◌^◌, min, Bool, true, ◌&&◌, ◌||◌, Option, none, some, ltb, leb, ◌==◌, ◌!=◌, length,
  take, if◌then◌else◌,
}
use trans_proxy.Ring.{available, free, read, write}
use trans_proxy.Trans.Segment.{Segment, Packet, add_word, sub_word}
use trans_proxy.Tcp.State.{
  State, closed, listen, syn_sent, syn_recv, established, last_ack, fin_wait_1, fin_wait_2, closing,
  Endpoint, send_packet, ack_flag,
}
use trans_proxy.Tcp.Call.{Listener, run_calls, tell}

-- `FLAG_ACK` with the number behind ours.
abbrev pub acks_next : Segment → Endpoint → Bool
acks_next p e = p.flags.ack && (p.ack_seq == add_word e.local_seq 1)

abbrev pub step_local : Endpoint → Endpoint
step_local e = record e { local_seq = add_word e.local_seq 1 }

-- STATE_LISTEN. `none` is the exception.
unfoldable pub on_listen : Packet → Endpoint → Option Endpoint
on_listen q e =
    if q.segment.flags.syn
    then some (record e {
      addrs = record (e.addrs) { remote = q.src };
      remote_seq = add_word q.segment.seq 1;
      state = syn_recv;
      retry_count = 0;
      timer1 = some 0;
    })
    else none

-- STATE_LAST_ACK and STATE_CLOSING.
unfoldable pub on_last : Segment → Endpoint → Endpoint
on_last p e = if acks_next p e then record (step_local e) { state = closed; timer1 = some 0 } else e

-- STATE_FIN_WAIT_1. Its third branch, for a FIN with an ACK, stands behind the first two.
unfoldable pub on_fin_wait_1 : Segment → Endpoint → Endpoint
unfolding send_packet
on_fin_wait_1 p e =
    if acks_next p e
    then record (step_local e) { state = fin_wait_2; timer1 = some 3000 }
    else if p.flags.fin
    then record e { state = closing; retry_count = 0; timer1 = some 0 }
    else if p.flags.fin && acks_next p e
    then record (send_packet ack_flag 0 [] (step_local e)) { state = closed; timer1 = some 0 }
    else e

-- STATE_FIN_WAIT_2
unfoldable pub on_fin_wait_2 : Segment → Endpoint → Endpoint
unfolding send_packet
on_fin_wait_2 p e =
    if p.flags.fin
    then record (send_packet ack_flag 0 [] e) { state = closed; timer1 = some 0 }
    else e

-- A FIN in the other states.
abbrev pub on_fin : Endpoint → Endpoint
on_fin e = record e {
  remote_seq = add_word e.remote_seq 1;
  state = last_ack;
  retry_count = 0;
  timer1 = some 0;
}

-- STATE_SYN_RECV
unfoldable pub on_syn_recv : List ℕ → Listener → Segment → Endpoint → Endpoint
unfolding run_calls
on_syn_recv stack user p e =
    let e' = record (step_local e) { state = established } in
    let (given, calls) = user.on_server_connected e' in
    if acks_next p e then record (run_calls stack calls e') { has_listener = given } else e

-- STATE_SYN_SENT
unfoldable pub on_syn_sent : List ℕ → Listener → Segment → Endpoint → Option Endpoint
unfolding send_packet tell
on_syn_sent stack user p e =
    let e' = record (send_packet ack_flag 0 [] (step_local e)) { state = established } in
    if p.flags.syn && acks_next p e then tell stack user.on_connected e' else some e

-- STATE_ESTABLISHED: the acknowledged bytes leave the ring.
unfoldable pub take_ack : Segment → Endpoint → Endpoint
take_ack p e =
    let ack = sub_word p.ack_seq e.local_seq in
    let (_, ring) = read e.out_ring ack in
    let e' = record e { out_ring = ring; local_seq = add_word e.local_seq ack } in
    let e'' = record e' { can_send = true; timer1 = (if e.need_send then some 0 else e.timer1) } in
    if p.flags.ack && (ltb 0 ack && ltb ack (2 ^ 30))
    then (if available ring == 0 then e'' else e')
    else e

-- STATE_ESTABLISHED: the bytes that fit come into the ring.
unfoldable pub take_data : Segment → Endpoint → Endpoint
take_data p e =
    let bytes = min (length p.payload) (free e.in_ring) in
    let (_, ring) = write e.in_ring (take bytes p.payload) in
    let e' = record e {
      in_ring = ring;
      remote_seq = add_word e.remote_seq bytes;
      can_recv = (if p.flags.psh || (free ring == 0) then true else e.can_recv);
      need_ack = true;
      timer1 = some 0;
    } in
    if (bytes != 0) && leb bytes (free e.in_ring) then e' else e

-- The states below the test of FLAG_FIN.
unfoldable pub on_open : State → List ℕ → Listener → Segment → Endpoint → Option Endpoint
unfolding on_syn_recv on_syn_sent take_ack take_data
on_open syn_recv stack user p e = some (on_syn_recv stack user p e)
on_open syn_sent stack user p e = on_syn_sent stack user p e
on_open established stack user p e = some (take_data p (take_ack p e))
on_open _ stack user p e = some e

-- A packet with the number that is expected.
unfoldable pub on_expected : State → List ℕ → Listener → Segment → Endpoint → Option Endpoint
unfolding on_last on_fin_wait_1 on_fin_wait_2 on_open
on_expected last_ack stack user p e = some (on_last p e)
on_expected fin_wait_1 stack user p e = some (on_fin_wait_1 p e)
on_expected fin_wait_2 stack user p e = some (on_fin_wait_2 p e)
on_expected closing stack user p e = some (on_last p e)
on_expected s stack user p e = if p.flags.fin then some (on_fin e) else on_open s stack user p e

-- `dispatchPacket` in a state.
unfoldable pub dispatch_in : State → List ℕ → Listener → Packet → Endpoint → Option Endpoint
unfolding on_listen on_expected
dispatch_in listen stack user q e = on_listen q e
dispatch_in s stack user q e =
    let expected = on_expected s stack user q.segment e in
    if q.segment.seq == e.remote_seq then expected else some e

unfoldable pub dispatch_packet : List ℕ → Listener → Packet → Endpoint → Option Endpoint
unfolding dispatch_in
dispatch_packet stack user q e =
    dispatch_in e.state stack user q (record e { remote_window_size = q.segment.window_size })
