-- ===== src/Tcp/Tests.antt =====
-- The theorems on TCP connections at work on two connections.
use trans_proxy.Base.{
  ◌⊎◌, Bool, ◌%◌, ℕ, ◌+◌, ◌-◌, ◌^◌, ◌<◌, ◌≡◌, refl, min, true, false, none, some, List, [], ◌∷◌,
  ◌++◌, length, take, replicate, length-replicate, arith,
}
use trans_proxy.Ring.{Ring, alloc, available, free}
use trans_proxy.Ring.Valid.{available-eq-used, free-eq-sub}
use trans_proxy.Ring.Contents.{contents}
use trans_proxy.Map.{leaf}
use trans_proxy.Map.Api
use trans_proxy.Trans.Segment.{Packet, no_flags}
use trans_proxy.Net.Pair.{pair_key}
use trans_proxy.Tcp.State.{established, syn_sent, closing, Endpoint, Out, create, ring_size}
use trans_proxy.Tcp.Send.{send}
use trans_proxy.Tcp.Call.{Listener, call_send, call_close}
use trans_proxy.Tcp.Receive.{dispatch_packet}
use trans_proxy.Tcp.Timer.{deleted, running, fire2}
use trans_proxy.Tcp.Open.{Connections, found_at, goes_on, free_port, is_taken}
use trans_proxy.Tcp.Valid.{IsValid, Kept-IsValid, CountedUser}
use trans_proxy.Tcp.Run.{create-IsValid}
use trans_proxy.Tcp.Segments.{Carried}
use trans_proxy.Tcp.Sent.{Queued, send_lem, fire2-Carried}
use trans_proxy.Tcp.Arrived.{Received, received_lem}
use trans_proxy.Tcp.Stream.{deliver, Delivered, stream_lem}
use trans_proxy.Tcp.Giveup.{fires, in_syn_sent, Waiting-ends, closing_waits}
use trans_proxy.Tcp.Ports.{port_found, IsFirst, free_port_lem}
use trans_proxy.Net.Checksum.{sum, checksum}
use trans_proxy.Net.TcpHeader.{TcpPacket}
use trans_proxy.Tcp.Wire.{encode, arrive}
use trans_proxy.Tcp.Wire.Decoded.{InFields}
use trans_proxy.Tcp.Wire.Trip.{wire_lem}

abbrev memory : List ℕ
memory = replicate ring_size 0

length-memory : length memory ≡ ring_size
length-memory = length-replicate {A = ℕ} ring_size 0

-- A user that sends when it can and closes when bytes come.
abbrev user : Listener
user = record {
  on_server_connected = λ e. (true, call_send (1 ∷ []) ∷ []);
  on_connected = λ e. [];
  on_to_recv = λ e. call_close ∷ [];
  on_to_send = λ e. call_send (7 ∷ 8 ∷ []) ∷ [];
}

user-CountedUser : CountedUser user
user-CountedUser = record {
  server_connected = λ e. (omega arith, tt);
  connected = λ e. tt;
  to_recv = λ e. (tt, tt);
  to_send = λ e. (omega arith, tt);
}

abbrev fresh : Endpoint
fresh = create 1000 memory memory 1

fresh-IsValid : IsValid fresh
fresh-IsValid = create-IsValid 1000 memory memory 1 length-memory length-memory

-- Two connections that have shaken hands.
abbrev alice : Endpoint
alice = record fresh { state = established; remote_window_size = 1400 }

abbrev bob : Endpoint
bob = record fresh { state = established; remote_seq = 1000 }

alice-IsValid : IsValid alice
alice-IsValid = Kept-IsValid {e = fresh} (refl, refl, refl) fresh-IsValid

bob-IsValid : IsValid bob
bob-IsValid = Kept-IsValid {e = fresh} (refl, refl, refl) fresh-IsValid

abbrev no_conns : Connections
no_conns = record { named = true; root = leaf; size = 0 }

send_lem_example : Queued alice (5 ∷ 6 ∷ []) (send [] (5 ∷ 6 ∷ []) alice)
send_lem_example = send_lem [] (5 ∷ 6 ∷ []) alice alice-IsValid (omega arith) refl

room_left : 0 < free alice.out_ring
unfolding create alloc
room_left = omega (arith, free-eq-sub alice-IsValid.out_valid)

-- Nothing is in the ring yet.
none_sent : available alice.out_ring ≡ 0
unfolding create alloc
none_sent = available-eq-used alice-IsValid.out_valid

-- Two bytes that were sent and are not acknowledged.
abbrev two_bytes : Ring
two_bytes = record {
  buffer = 5 ∷ 6 ∷ replicate 1398 0;
  buffer_size = ring_size;
  read_pos = 0;
  write_pos = 2;
}

abbrev carol : Endpoint
carol = record alice { out_ring = two_bytes }

carol-IsValid : IsValid carol
unfolding create
carol-IsValid = record {
  in_valid = alice-IsValid.in_valid;
  out_valid = record {
    positive = omega arith;
    small = omega arith;
    storage = omega (arith, length-replicate {A = ℕ} 1398 0);
    read_in = omega arith;
    write_in = omega arith;
    fits = omega arith;
  };
  in_size = alice-IsValid.in_size;
  out_size = refl;
  seq_in = alice-IsValid.seq_in;
}

fire2-Carried_example :
    Carried carol carol.local_seq (take 1400 (contents two_bytes)) (fire2 [] carol)
fire2-Carried_example =
    fire2-Carried [] carol carol-IsValid refl
      (omega (arith, available-eq-used carol-IsValid.out_valid)) (omega arith)

-- A packet with the next byte, which also acknowledges one of them.
abbrev next_packet : Packet
next_packet = record {
  src = record { ip = 7; port = 80 };
  dest = record { ip = 1; port = 1024 };
  segment = record {
    flags = record no_flags { ack = true };
    seq = 0;
    ack_seq = 1001;
    window_size = 1400;
    payload = 9 ∷ [];
  };
}

received_lem_example :
    (r : Endpoint) × (dispatch_packet [] user next_packet carol ≡ some r)
    × Received next_packet.segment carol r
unfolding create
received_lem_example =
    received_lem [] user next_packet carol carol-IsValid (omega arith) refl refl refl

stream_lem_example :
    let (n, a) = send [] (5 ∷ 6 ∷ []) alice in
    (outs : List Out) × (a.sent ≡ alice.sent ++ outs)
    × (b : Endpoint) × (deliver [] user outs bob ≡ some b)
    × Delivered
        (alice.local_seq + available alice.out_ring)
        (take
          (min (available alice.out_ring + n) 1400 - available alice.out_ring)
          (take n (5 ∷ 6 ∷ [])))
        bob
        b
unfolding create alloc
stream_lem_example =
    stream_lem [] (5 ∷ 6 ∷ []) user alice bob alice-IsValid bob-IsValid (omega arith) refl refl
      (omega arith) room_left (omega (arith, none_sent)) (omega (arith, none_sent))
      (omega (arith, free-eq-sub bob-IsValid.in_valid))

Waiting-ends_example :
    fires 5 [] user (running (record fresh { state = syn_sent; timer1 = some 0 })) ≡ some deleted
Waiting-ends_example =
    Waiting-ends [] user 0 (record fresh { state = syn_sent; timer1 = some 0 }) in_syn_sent refl

closing_waits_example :
    let e = record fresh { state = closing; timer1 = some 0 } in
    (r : Endpoint) × (fires 100 [] user (running e) ≡ some (running r))
    × (r.state ≡ closing)
    × (r.timer1 ≡ none)
unfolding create
closing_waits_example =
    closing_waits 99 [] user 0 (record fresh { state = closing; timer1 = some 0 }) refl refl
      (omega arith)

port_found_example :
    (p : ℕ) × (free_port 65536 (is_taken no_conns 1 (record { ip = 7; port = 80 })) 1024
      ≡ found_at p)
    × (is_taken no_conns 1 (record { ip = 7; port = 80 }) p ≡ false)
    × (p < 2 ^ 16)
unfolding is_taken Api.get
port_found_example = port_found no_conns 1 (record { ip = 7; port = 80 }) 2000 (omega arith) refl

free_port_lem_example :
    ((d : ℕ) × (d < 70000)
      × (free_port 70000 (λ q. true) 1024 ≡ found_at ((1024 + d) % 65536))
      × IsFirst (λ q. true) 1024 d)
    ⊎ ((free_port 70000 (λ q. true) 1024 ≡ goes_on 5488)
        × ((i : ℕ) → i < 70000 → ◌≡◌ {A = Bool} true true))
free_port_lem_example = free_port_lem 70000 (λ q. true) 1024 (omega arith)

-- A packet on the wire, in a buffer that was not cleared.
abbrev buffer : List ℕ
buffer = replicate 1500 204

abbrev on_wire : Out
on_wire = record {
  id = 7;
  packet = record {
    src = record { ip = 3232235777; port = 1080 };
    dest = record { ip = 3232235778; port = 40000 };
    segment = record {
      flags = record no_flags { psh = true; ack = true };
      seq = 4294967295;
      ack_seq = 1;
      window_size = 1400;
      payload = 72 ∷ 105 ∷ [];
    };
  };
}

on_wire-InFields : InFields on_wire.packet
on_wire-InFields = record {
  src_ip = omega arith;
  src_port = omega arith;
  dest_ip = omega arith;
  dest_port = omega arith;
  seq_in = omega arith;
  ack_in = omega arith;
  window_in = omega arith;
}

wire_lem_example :
    (p : TcpPacket) × (encode buffer on_wire ≡ some p)
    × (arrive p.ip.packet ≡ some on_wire.packet)
    × (checksum (sum (take 20 p.ip.packet.bytes)) ≡ some 0)
wire_lem_example =
    wire_lem buffer on_wire (length-replicate {A = ℕ} 1500 204) on_wire-InFields (omega arith)
