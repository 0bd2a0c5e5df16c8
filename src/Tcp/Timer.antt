-- ===== src/Tcp/Timer.antt =====
-- The two timers of a connection.
use trans_proxy.Base.{ℕ, ◌+◌, true, false, ◌&&◌, Option, none, some, ltb, List, [], if◌then◌else◌}
use trans_proxy.Map.{◌>>=◌}
use trans_proxy.Ring.{available}
use trans_proxy.Trans.Segment.{Flags, no_flags}
use trans_proxy.Tcp.State.{
  State, closed, syn_sent, syn_recv, established, last_ack, fin_wait_1, fin_wait_2, closing,
  Endpoint, send_packet, ack_flag, rst_flag,
}
use trans_proxy.Tcp.Send.{send_part, is_established}
use trans_proxy.Tcp.Call.{Listener, tell}

-- What is left when a timer has fired: `delete this`, or the connection.
pub data Left : Type 0 where
  deleted : Left
  running : Endpoint → Left

-- The last packet of a connection that gives up.
unfoldable pub give_up : Endpoint → Endpoint
unfolding send_packet
give_up e = record (send_packet rst_flag 0 [] e) { state = closed; timer1 = some 0 }

-- `if (_retryCount++ < 3)`: the packet again, else the end.
unfoldable pub retry : Flags → Endpoint → Endpoint
unfolding send_packet give_up
retry flags e =
    let e' = record e { retry_count = e.retry_count + 1 } in
    if ltb e.retry_count 3
    then record (send_packet flags 0 [] e') { timer1 = some 3000 }
    else give_up e'

-- STATE_CLOSING sets no timer behind its packet.
unfoldable pub retry_closing : Endpoint → Endpoint
unfolding send_packet give_up
retry_closing e =
    let e' = record e { retry_count = e.retry_count + 1 } in
    if ltb e.retry_count 3 then send_packet ack_flag 0 [] e' else give_up e'

-- STATE_ESTABLISHED
unfoldable pub tell_recv : List ℕ → Listener → Endpoint → Option Endpoint
unfolding tell
tell_recv stack user e =
    let told = tell stack user.on_to_recv (record e { need_recv = false }) in
    if e.need_recv && e.can_recv then told else some e

unfoldable pub tell_send : List ℕ → Listener → Endpoint → Option Endpoint
unfolding tell
tell_send stack user e =
    let told = tell stack user.on_to_send (record e { need_send = false }) in
    if e.need_send && e.can_send then told else some e

-- `onTimeout` in a state.
unfoldable pub timeout_in : State → List ℕ → Listener → Endpoint → Option Left
unfolding retry retry_closing give_up tell_recv tell_send
timeout_in syn_sent stack user e = some (running (retry (record no_flags { syn = true }) e))
timeout_in syn_recv stack user e = some (running (retry (record ack_flag { syn = true }) e))
timeout_in established stack user e =
    tell_recv stack user e >>= λ e1. tell_send stack user e1 >>= λ e2. some (running e2)
timeout_in last_ack stack user e = some (running (retry (record ack_flag { fin = true }) e))
timeout_in fin_wait_1 stack user e = some (running (retry (record ack_flag { fin = true }) e))
timeout_in fin_wait_2 stack user e = some (running (give_up e))
timeout_in closing stack user e = some (running (retry_closing e))
timeout_in closed stack user e = some deleted
timeout_in _ stack user e = some (running e)

-- `onTimeout` of `_timer1`, which fires once.
unfoldable pub fire1 : List ℕ → Listener → Endpoint → Option Left
unfolding timeout_in
fire1 stack user e = timeout_in e.state stack user (record e { timer1 = none })

-- `_TimerListener2::onTimeout`
unfoldable pub fire2 : List ℕ → Endpoint → Endpoint
unfolding send_part
fire2 stack e =
    let e' = record e { timer2 = none } in
    let e'' = record (send_part stack 0 (available e.out_ring) e') { timer2 = some 3000 } in
    if is_established e.state then e'' else e'
