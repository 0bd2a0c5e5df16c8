-- ===== src/Trans/Conn.antt =====
-- `_Connection` of Dev/Main/src/TransProxy/TransTCP.h and TransTCP.cpp: one connection between a
-- client and the upstream proxy.
pub mod Lifetime
pub mod First
pub mod Idle
pub mod Translate
pub mod Owner
mod Tests
use trans_proxy.Base.{
  ℕ, ◌+◌, ◌-◌, ◌*◌, ◌^◌, ◌%◌, Bool, true, false, not, ◌&&◌, ◌||◌, Option, none, some, List, [], ◌∷◌,
  ◌++◌, ltb, leb, ◌==◌, if◌then◌else◌, length, size_mod, add_size, sub_size,
}
use trans_proxy.Map.{◌>>=◌}
use trans_proxy.Net.Sock.{SockAddr}
use trans_proxy.Net.Pair.{SockAddrPair}
use trans_proxy.Trans.Segment.{
  Flags, no_flags, Segment, Packet, word_mod, half_mod, add_word, sub_word,
}
use trans_proxy.Trans.Auth.{
  Auth, Call, send_request, commit_request, Reply, refused, accepted, more, send_auth_request,
  on_auth_response,
}

-- `_From`
pub data From : Type 0 where
  from_client from_proxy : From

-- `_State`
pub data State : Type 0 where
  closed syn_sent syn_received auth establishing established fin_wait closing : State

-- The fields of `_Connection`. `timer` is the time after which the armed timer fires. `create` is
-- the call of the builder for the host name and the port of this connection.
pub record Conn : Type 0 where
  pub addr_pair : SockAddrPair
  pub agent : SockAddr
  pub proxy : SockAddr
  pub create : Auth
  pub timer : Option ℕ
  pub state : State
  pub retry_count : ℕ
  pub client_seq : ℕ
  pub proxy_seq : ℕ
  pub client_window_size : ℕ
  pub proxy_window_size : ℕ
  pub handshake : Option Auth
  pub proxy_out_total : ℕ
  pub proxy_in_total : ℕ
  pub up_bytes : ℕ
  pub down_bytes : ℕ
  pub client_fin : Bool
  pub proxy_fin : Bool

-- A connection at work: the totals of the translator, and the packets sent so far.
pub record Run : Type 0 where
  pub conn : Conn
  pub total_up_bytes : ℕ
  pub total_down_bytes : ℕ
  pub sent : List Packet

-- `_sendPacket (from, packet)`, less the checksum.
pub send_packet : From → Segment → Run → Run
send_packet from_client seg r = record r {
  sent = r.sent ++ (record { src = r.conn.agent; dest = r.conn.proxy; segment = seg } ∷ []);
}
send_packet from_proxy seg r = record r {
  sent =
      r.sent
      ++ (record { src = r.conn.addr_pair.local; dest = r.conn.addr_pair.remote; segment = seg }
          ∷ []);
}

-- `_sendPacket (from, flags, …)`: the fields are cut to their widths.
pub send_segment : From → Flags → ℕ → ℕ → ℕ → List ℕ → Run → Run
unfolding send_packet
send_segment f flags seq ack_seq window_size bytes r =
    send_packet f
      (record {
        flags = record flags { ack = true };
        seq = seq % word_mod;
        ack_seq = ack_seq % word_mod;
        window_size = window_size % half_mod;
        payload = bytes;
      })
      r

abbrev pub int_max : ℕ
int_max = 2 ^ 31 - 1

-- The bytes newly acknowledged, where they are counted.
abbrev pub acknowledged : Bool → ℕ → ℕ
acknowledged ack bytes = if ack && (ltb 0 bytes && leb bytes int_max) then bytes else 0

-- `_transferData`
pub transfer_data : From → Segment → Run → Run
unfolding send_packet
transfer_data from_client p r =
    let c = r.conn in
    let down = acknowledged p.flags.ack (sub_size (sub_word p.ack_seq c.proxy_seq) c.down_bytes) in
    let p' = record p {
      seq = add_word p.seq c.proxy_out_total;
      ack_seq = add_word p.ack_seq c.proxy_in_total;
    } in
    send_packet from_client p' (record r {
      conn = record c { down_bytes = add_size c.down_bytes down };
      total_down_bytes = add_size r.total_down_bytes down;
    })
transfer_data from_proxy p r =
    let c = r.conn in
    let seq = sub_word p.seq c.proxy_in_total in
    let ack_seq = sub_word p.ack_seq c.proxy_out_total in
    let up = acknowledged p.flags.ack (sub_size (sub_word ack_seq c.client_seq) c.up_bytes) in
    send_packet from_proxy (record p { seq = seq; ack_seq = ack_seq })
      (record r {
        conn = record c { up_bytes = add_size c.up_bytes up };
        total_up_bytes = add_size r.total_up_bytes up;
      })

-- `_transferSYN1`
pub transfer_syn1 : From → Segment → Run → Run
unfolding send_packet
transfer_syn1 from_proxy p r = r
transfer_syn1 from_client p r =
    let c = record (r.conn) { client_seq = add_word p.seq 1; client_window_size = p.window_size } in
    let r' = send_packet from_client (record p { window_size = 0 }) (record r { conn = c }) in
    if p.flags.syn
    then record r' { conn = record (r'.conn) { state = syn_sent; timer = some 3000 } }
    else r

-- `_transferSYN2`
pub transfer_syn2 : From → Segment → Run → Run
unfolding send_packet
transfer_syn2 from_client p r = r
transfer_syn2 from_proxy p r =
    let c = record (r.conn) { proxy_seq = add_word p.seq 1 } in
    let r' = send_packet from_proxy (record p { window_size = 0 }) (record r { conn = c }) in
    if p.flags.syn && (p.flags.ack && (p.ack_seq == r.conn.client_seq))
    then record r' { conn = record (r'.conn) { state = syn_received; timer = some 3000 } }
    else r

-- `_transferSYN3`
pub transfer_syn3 : From → Segment → Run → Run
unfolding send_packet
transfer_syn3 from_proxy p r = r
transfer_syn3 from_client p r =
    let r' = send_packet from_client (record p { window_size = 0 }) r in
    if p.flags.ack && (p.ack_seq == r.conn.proxy_seq)
    then record r' {
      conn = record (r'.conn) {
        handshake = some r.conn.create;
        state = auth;
        retry_count = 0;
        timer = some 0;
      };
    }
    else r

-- `_observeFIN`
pub observe_fin : From → Segment → Conn → Conn
observe_fin from_client p c = if p.flags.fin then record c { client_fin = true } else c
observe_fin from_proxy p c = if p.flags.fin then record c { proxy_fin = true } else c

-- `_close`
abbrev pub close : Run → Run
close r = record r { conn = record (r.conn) { state = closing; retry_count = 0; timer = some 0 } }

-- `_closed`
abbrev pub set_closed : Run → Run
set_closed r = record r { conn = record (r.conn) { state = closed; timer = some 0 } }

-- `sendAuthRequest` and `commitAuthRequest`, called by the handshake.
pub answer_call : Call → Run → Run
unfolding send_segment
answer_call (send_request bytes buffer_size) r =
    let c = r.conn in
    send_segment from_client (record no_flags { psh = true })
      (add_size c.client_seq c.proxy_out_total) (add_size c.proxy_seq c.proxy_in_total) buffer_size
      bytes r
answer_call (commit_request bytes) r = record r {
  conn = record (r.conn) { proxy_out_total = add_size r.conn.proxy_out_total bytes };
}

pub answer_calls : List Call → Run → Run
unfolding answer_call
answer_calls [] r = r
answer_calls (c ∷ cs) r = answer_calls cs (answer_call c r)

-- `_authSendRequest`, with the pointer `_auth` first. `none` is a null pointer that is followed.
pub auth_send_request : Option Auth → Run → Option Run
unfolding answer_calls send_auth_request
auth_send_request none r = none
auth_send_request (some a) r = some (answer_calls (send_auth_request a) r)

-- What `_authDispatchPacket` does with the result of the handshake.
pub after_answer : Reply → Auth → Segment → Run → Run
after_answer more a p r = record r { conn = record (r.conn) { handshake = some a } }
after_answer accepted a p r = record r {
  conn = record (r.conn) {
    handshake = none;
    proxy_window_size = p.window_size;
    state = establishing;
    retry_count = 0;
    timer = some 0;
  };
}
after_answer refused a p r = close (record r { conn = record (r.conn) { handshake = none } })

-- `_auth->onAuthResponse` and what follows it, with the pointer `_auth` first.
pub answered : Option Auth → Segment → Run → Option Run
unfolding on_auth_response answer_calls after_answer
answered none p r = none
answered (some a) p r =
    let (reply, a', calls) = on_auth_response a p.payload in
    some (after_answer reply a' p (answer_calls calls r))

-- `_authDispatchPacket`
pub auth_dispatch_packet : From → Segment → Run → Option Run
unfolding answered
auth_dispatch_packet from_client p r = some r
auth_dispatch_packet from_proxy p r =
    let c = r.conn in
    let in_total = add_size c.proxy_in_total (length p.payload) in
    if p.seq == add_size c.proxy_seq c.proxy_in_total
    then answered c.handshake p (record r { conn = record c { proxy_in_total = in_total } })
    else some r

-- `_establishingSendRequest`
pub establishing_send_request : Run → Run
unfolding send_segment
establishing_send_request r =
    let c = r.conn in
    send_segment from_client no_flags (add_size c.client_seq c.proxy_out_total)
      (add_size c.proxy_seq c.proxy_in_total) c.client_window_size []
      (send_segment from_proxy no_flags c.proxy_seq c.client_seq c.proxy_window_size [] r)

-- `_closingSendRequest`
pub closing_send_request : Run → Run
unfolding send_segment
closing_send_request r =
    let c = r.conn in
    let fin_flags = record no_flags { fin = true } in
    let r' =
      (if c.client_fin
        then r
        else send_segment from_proxy fin_flags c.proxy_seq c.client_seq c.proxy_window_size [] r) in
    if c.proxy_fin
    then r'
    else send_segment from_client fin_flags (add_size c.client_seq c.proxy_out_total)
        (add_size c.proxy_seq c.proxy_in_total) c.client_window_size [] r'

-- The end that the ACK of a FIN closes.
pub acknowledge_fin : From → Segment → Conn → Conn
acknowledge_fin from_client p c =
    if p.ack_seq == add_word c.proxy_seq 1 then record c { client_fin = true } else c
acknowledge_fin from_proxy p c =
    if p.ack_seq == add_size (add_size c.client_seq c.proxy_out_total) 1
    then record c { proxy_fin = true }
    else c

-- `_closingDispatchPacket`
pub closing_dispatch_packet : From → Segment → Run → Run
unfolding acknowledge_fin
closing_dispatch_packet f p r =
    let c = acknowledge_fin f p r.conn in
    let r' = record r { conn = c } in
    if p.flags.ack then (if c.client_fin && c.proxy_fin then set_closed r' else r') else r

-- What `dispatchPacket` does behind the first packets of an open connection.
pub pass_on : From → Segment → Run → Run
unfolding transfer_data observe_fin
pass_on f p r =
    let r' = transfer_data f p r in
    let c = observe_fin f p r'.conn in
    if c.client_fin && c.proxy_fin
    then record r' { conn = record c { state = fin_wait; timer = some 3000 } }
    else record r' { conn = record c { timer = some (15 * 60 * 1000) } }

-- `dispatchPacket` in a state.
pub dispatch_in : State → From → Segment → Run → Option Run
unfolding transfer_syn1 transfer_syn2 transfer_syn3 auth_dispatch_packet pass_on transfer_data
    closing_dispatch_packet
dispatch_in closed f p r = some (transfer_syn1 f p r)
dispatch_in syn_sent f p r = some (transfer_syn2 f p (transfer_syn1 f p r))
dispatch_in syn_received f p r = some (transfer_syn3 f p (transfer_syn2 f p r))
dispatch_in auth f p r = auth_dispatch_packet f p r
dispatch_in establishing f p r =
    some (pass_on f p (record r { conn = record (r.conn) { state = established } }))
dispatch_in established f p r = some (pass_on f p r)
dispatch_in fin_wait f p r = some (transfer_data f p r)
dispatch_in closing f p r = some (closing_dispatch_packet f p r)

pub dispatch_packet : From → Segment → Run → Option Run
unfolding dispatch_in
dispatch_packet f p r = dispatch_in r.conn.state f p r

-- `_try`
abbrev pub attempt : (Run → Option Run) → (Run → Run) → Run → Option Run
attempt fn timeout r =
    let r' = record r { conn = record (r.conn) { retry_count = r.conn.retry_count + 1 } } in
    let tried = (fn r' >>= λ q. some (record q { conn = record (q.conn) { timer = some 3000 } })) in
    if ltb r.conn.retry_count 3 then tried else some (timeout r')

-- What is left when a timer has fired: `delete this`, or the connection.
pub data Left : Type 0 where
  deleted : Left
  running : Run → Left

-- `onTimeout` in a state.
pub timeout_in : State → Run → Option Left
unfolding auth_send_request establishing_send_request closing_send_request
timeout_in syn_sent r = some (running (close r))
timeout_in syn_received r = some (running (close r))
timeout_in auth r = attempt (auth_send_request r.conn.handshake) close r >>= λ q. some (running q)
timeout_in establishing r =
    attempt (λ q. some (establishing_send_request q)) close r >>= λ q. some (running q)
timeout_in established r = some (running (close r))
timeout_in fin_wait r = some (running (set_closed r))
timeout_in closing r =
    attempt (λ q. some (closing_send_request q)) set_closed r >>= λ q. some (running q)
timeout_in closed r = some deleted

pub on_timeout : Run → Option Left
unfolding timeout_in
on_timeout r = timeout_in r.conn.state r

-- The timer fires once: it is disarmed when `onTimeout` runs.
pub fire : Run → Option Left
unfolding on_timeout
fire r = on_timeout (record r { conn = record (r.conn) { timer = none } })

-- `TransTCP::dispatchPacket` makes a connection and gives it the client's first packet.
pub new_conn : SockAddrPair → SockAddr → SockAddr → Auth → Conn
new_conn addr_pair agent proxy create = record {
  addr_pair = addr_pair;
  agent = agent;
  proxy = proxy;
  create = create;
  timer = none;
  state = closed;
  retry_count = 0;
  client_seq = 0;
  proxy_seq = 0;
  client_window_size = 0;
  proxy_window_size = 0;
  handshake = none;
  proxy_out_total = 0;
  proxy_in_total = 0;
  up_bytes = 0;
  down_bytes = 0;
  client_fin = false;
  proxy_fin = false;
}
