-- ===== src/Tcp/Run/Tests.antt =====
-- A connection from `accept` to its first bytes.
use trans_proxy.Base.{
  ℕ, ◌≡◌, refl, Option, true, none, some, List, [], ◌∷◌, length, replicate, length-replicate, arith,
}
use trans_proxy.Map.{leaf}
use trans_proxy.Map.Api
use trans_proxy.Trans.Segment.{Flags, Packet, no_flags}
use trans_proxy.Net.Pair.{SockAddrPair, pair_key}
use trans_proxy.Tcp.State.{established, Endpoint, create, ring_size}
use trans_proxy.Tcp.Call.{Listener, call_send, run_call}
use trans_proxy.Tcp.Receive.{dispatch_packet}
use trans_proxy.Tcp.Open.{Connections, accept}
use trans_proxy.Tcp.Valid.{IsValid, CountedUser}
use trans_proxy.Tcp.Run.{on_accept, on_packet, on_call, Step, Reached, start, next, Reached-IsValid}

abbrev memory : List ℕ
memory = replicate ring_size 0

length-memory : length memory ≡ ring_size
length-memory = length-replicate {A = ℕ} ring_size 0

abbrev fresh : Endpoint
fresh = create 1000 memory memory 1

abbrev no_conns : Connections
no_conns = record { named = true; root = leaf; size = 0 }

abbrev peers : SockAddrPair
peers = record { remote = record { ip = 7; port = 80 }; local = record { ip = 1; port = 1024 } }

abbrev packet_with : Flags → ℕ → ℕ → List ℕ → Packet
packet_with flags seq ack_seq bytes = record {
  src = peers.remote;
  dest = peers.local;
  segment = record {
    flags = flags;
    seq = seq;
    ack_seq = ack_seq;
    window_size = 1400;
    payload = bytes;
  };
}

abbrev after_accept : Option (Endpoint × Connections) → Endpoint
after_accept none = fresh
after_accept (some o) = o.0

abbrev after_packet : Option Endpoint → Endpoint
after_packet none = fresh
after_packet (some e) = e

abbrev listening : Endpoint
listening = after_accept (accept 1 peers fresh no_conns)

-- A user that only takes the connection.
abbrev quiet : Listener
quiet = record {
  on_server_connected = λ e. (true, []);
  on_connected = λ e. [];
  on_to_recv = λ e. [];
  on_to_send = λ e. [];
}

quiet-CountedUser : CountedUser quiet
quiet-CountedUser = record {
  server_connected = λ e. tt;
  connected = λ e. tt;
  to_recv = λ e. tt;
  to_send = λ e. tt;
}

abbrev first_syn : Packet
first_syn = packet_with (record no_flags { syn = true }) 5000 0 []

abbrev first_ack : Packet
first_ack = packet_with (record no_flags { ack = true }) 5001 1001 []

abbrev greeted : Endpoint
greeted = after_packet (dispatch_packet [] quiet first_syn listening)

abbrev shaken : Endpoint
shaken = after_packet (dispatch_packet [] quiet first_ack greeted)

-- It is established, and the user sends two bytes.
abbrev filled : Endpoint
filled = run_call [] (call_send (7 ∷ 8 ∷ [])) shaken

accepted_step : Step quiet fresh listening
unfolding accept create Api.add
accepted_step = on_accept 1 peers no_conns _ fresh listening refl

is_shaken : shaken.state ≡ established
unfolding accept create Api.add dispatch_packet
is_shaken = refl

syn_step : Step quiet listening greeted
unfolding accept create Api.add dispatch_packet
syn_step = on_packet [] first_syn listening greeted refl

ack_step : Step quiet greeted shaken
unfolding accept create Api.add dispatch_packet
ack_step = on_packet [] first_ack greeted shaken refl

filled_reached : Reached quiet fresh filled
filled_reached =
    next (next (next (next start accepted_step) syn_step) ack_step)
      (on_call [] (call_send (7 ∷ 8 ∷ [])) shaken (omega arith))

Reached-IsValid_example : IsValid filled
Reached-IsValid_example =
    Reached-IsValid quiet 1000 memory memory 1 filled quiet-CountedUser length-memory length-memory
      filled_reached
