-- ===== src/Tcp/State.antt =====
-- The state of a TCP endpoint, and the packets that it sends.
use trans_proxy.Base.{
  ℕ, ◌+◌, ◌%◌, Bool, true, false, ◌||◌, Option, none, List, [], ◌∷◌, ◌++◌, ltb, length, add_size,
  if◌then◌else◌,
}
use trans_proxy.Net.Pair.{SockAddrPair}
use trans_proxy.Ring.{Ring, alloc, free}
use trans_proxy.Trans.Segment.{Flags, no_flags, Packet, word_mod, half_mod}

-- `_State`
pub data State : Type 0 where
  closed listen syn_sent syn_recv established last_ack fin_wait_1 fin_wait_2 closing time_wait :
      State

-- A packet that was sent, with the id of its IP header.
pub record Out : Type 0 where
  pub id : ℕ
  pub packet : Packet

-- The fields of `TcpConnection`. Of `_listener` only counts whether it is set; `timer1` and `timer2`
-- are the times after which the armed timers fire; `sent` are the packets sent so far.
pub record Endpoint : Type 0 where
  pub addrs : SockAddrPair
  pub has_listener : Bool
  pub id : ℕ
  pub remote_window_size : ℕ
  pub state : State
  pub retry_count : ℕ
  pub local_seq : ℕ
  pub remote_seq : ℕ
  pub in_ring : Ring
  pub out_ring : Ring
  pub need_recv : Bool
  pub need_send : Bool
  pub can_recv : Bool
  pub can_send : Bool
  pub need_ack : Bool
  pub timer1 : Option ℕ
  pub timer2 : Option ℕ
  pub sent : List Out

abbrev pub ring_size : ℕ
ring_size = 1400

-- The constructor. The number that `::random` returns and the memory of the rings are arguments.
unfoldable pub create : ℕ → List ℕ → List ℕ → ℕ → Endpoint
create random in_memory out_memory ip = record {
  addrs = record { remote = record { ip = ip; port = 0 }; local = record { ip = 0; port = 0 } };
  has_listener = false;
  id = 1;
  remote_window_size = 0;
  state = closed;
  retry_count = 0;
  local_seq = random % word_mod;
  remote_seq = 0;
  in_ring = alloc in_memory ring_size;
  out_ring = alloc out_memory ring_size;
  need_recv = false;
  need_send = false;
  can_recv = false;
  can_send = false;
  need_ack = false;
  timer1 = none;
  timer2 = none;
  sent = [];
}

abbrev pub ack_flag : Flags
ack_flag = record no_flags { ack = true }

abbrev pub rst_flag : Flags
rst_flag = record no_flags { rst = true }

-- The packet that `sendPacket` makes, less its checksums.
abbrev pub packet_of : Endpoint → Flags → ℕ → List ℕ → Packet
packet_of e flags offset bytes = record {
  src = e.addrs.local;
  dest = e.addrs.remote;
  segment = record {
    flags = (if e.need_ack || ltb 0 (length bytes) then record flags { ack = true } else flags);
    seq = add_size e.local_seq offset % word_mod;
    ack_seq = e.remote_seq;
    window_size = free e.in_ring % half_mod;
    payload = bytes;
  };
}

-- `sendPacket (flags, offset, bytes, data)`
unfoldable pub send_packet : Flags → ℕ → List ℕ → Endpoint → Endpoint
send_packet flags offset bytes e = record e {
  id = (e.id + 1) % half_mod;
  need_ack = (if e.need_ack || ltb 0 (length bytes) then false else e.need_ack);
  sent = e.sent ++ (record { id = e.id; packet = packet_of e flags offset bytes } ∷ []);
}
