-- ===== src/Tcp/Send.antt =====
-- `_send` and what a user of a connection calls.
use trans_proxy.Base.{
  ℕ, zero, suc, ◌-◌, min, Bool, true, false, some, List, [], ltb, ◌==◌, take, blit, add_size,
  if◌then◌else◌,
}
use trans_proxy.Ring.{available, free, peek, read, write}
use trans_proxy.Trans.Segment.{no_flags}
use trans_proxy.Tcp.State.{
  State, established, fin_wait_1, fin_wait_2, closing, Endpoint, send_packet,
}

-- `sizeof(buf)`
abbrev pub chunk : ℕ
chunk = 1024

-- The loop of `_send` and the packet behind it, on fuel. `buf` is what its buffer holds.
unfoldable pub send_loop : ℕ → List ℕ → ℕ → ℕ → Endpoint → Endpoint
unfolding send_packet
send_loop zero buf offset l e = e
send_loop (suc n) buf offset l e =
    let buf' = blit buf 0 (peek e.out_ring offset chunk) in
    let more =
      send_loop n buf' (add_size offset chunk) (l - chunk)
        (send_packet no_flags offset (take chunk buf') e) in
    let last = blit buf 0 (peek e.out_ring offset l) in
    if ltb chunk l
    then more
    else send_packet (record no_flags { psh = true }) offset (take l last) e

-- `_send`. The memory that its buffer has on the stack is the first argument.
unfoldable pub send_part : List ℕ → ℕ → ℕ → Endpoint → Endpoint
unfolding send_loop send_packet
send_part stack offset bytes e =
    let l = min (add_size offset bytes) e.remote_window_size in
    let e' = (if ltb offset l then send_loop (suc l) stack offset (l - offset) e else e) in
    if e'.need_ack then send_packet no_flags 0 [] e' else e'

-- Whether the state is ESTABLISHED.
abbrev pub is_established : State → Bool
is_established established = true
is_established _ = false

-- `send`: its result and the endpoint
unfoldable pub send : List ℕ → List ℕ → Endpoint → ℕ × Endpoint
unfolding send_part
send stack bytes e =
    let offset = available e.out_ring in
    let (r, ring) = write e.out_ring bytes in
    let e' = record e {
      out_ring = ring;
      can_send = (if free ring == 0 then false else e.can_send);
    } in
    let e'' = record (send_part stack offset r e') { timer2 = some 3000 } in
    if is_established e.state then (r, if r == 0 then e' else e'') else (0, e)

-- `recv`: the bytes and the endpoint
unfoldable pub recv : ℕ → Endpoint → List ℕ × Endpoint
recv bytes e =
    let (out, ring) = read e.in_ring bytes in
    let e' = record e {
      in_ring = ring;
      can_recv = (if available ring == 0 then false else e.can_recv);
    } in
    if is_established e.state then (out, e') else ([], e)

-- `peek`
unfoldable pub peek_bytes : ℕ → Endpoint → List ℕ
peek_bytes bytes e = if is_established e.state then peek e.in_ring 0 bytes else []

-- `waitToRecv`
unfoldable pub wait_to_recv : Endpoint → Endpoint
wait_to_recv e =
    let e' = record e { need_recv = true; timer1 = (if e.can_recv then some 0 else e.timer1) } in
    if is_established e.state then e' else e

-- `waitToSend`
unfoldable pub wait_to_send : Endpoint → Endpoint
wait_to_send e =
    let e' = record e { need_send = true; timer1 = (if e.can_send then some 0 else e.timer1) } in
    if is_established e.state then e' else e

-- `close`
unfoldable pub close : Endpoint → Endpoint
close e =
    let e' = record e { has_listener = false } in
    let e'' = record e' { state = fin_wait_1; retry_count = 0; timer1 = some 0 } in
    elim e.state [ fin_wait_1 ↦ e' | fin_wait_2 ↦ e' | closing ↦ e' | _ ↦ e'' ]
