-- ===== src/Tcp/Wire.antt =====
-- The bytes of a packet: what `sendPacket` lays out, and what the receiver reads back.
pub mod Layout
pub mod Decoded
pub mod Filled
pub mod Trip
use trans_proxy.Base.{
  ℕ, zero, suc, ◌+◌, ◌*◌, ◌/◌, ◌%◌, ◌^◌, Bool, true, false, Option, none, some, List, [], ◌∷◌,
  length, ltb, if◌then◌else◌,
}
use trans_proxy.Map.{◌>>=◌}
use trans_proxy.Net.Sock.{SockAddr}
use trans_proxy.Net.Packet
use trans_proxy.Net.Ip
use trans_proxy.Net.TcpHeader
use trans_proxy.Net.TcpHeader.{TcpPacket, on_ip}
use trans_proxy.Trans.Segment.{Flags, Segment, Packet}
use trans_proxy.Tcp.State.{Out}

abbrev pub bit : Bool → ℕ
bit b = if b then 1 else 0

-- The flags as the bits of a byte.
abbrev pub flag_bits : Flags → ℕ
flag_bits f =
    bit f.fin + 2 * bit f.syn + 4 * bit f.rst + 8 * bit f.psh + 16 * bit f.ack + 32 * bit f.urg

-- The calls of `sendPacket` before the bytes.
unfoldable pub set_fields : Out → TcpPacket → Option TcpPacket
unfolding Ip.set_id Ip.set_src_addr TcpHeader.set_src_port Ip.set_dest_addr TcpHeader.set_dest_port
    TcpHeader.set_flags TcpHeader.set_seq TcpHeader.set_ack TcpHeader.set_window_size
set_fields o p = do
  p1 ← on_ip (Ip.set_id o.id) p
  p2 ← on_ip (Ip.set_src_addr o.packet.src.ip) p1
  p3 ← TcpHeader.set_src_port o.packet.src.port p2
  p4 ← on_ip (Ip.set_dest_addr o.packet.dest.ip) p3
  p5 ← TcpHeader.set_dest_port o.packet.dest.port p4
  p6 ← TcpHeader.set_flags (flag_bits o.packet.segment.flags) p5
  p7 ← TcpHeader.set_seq o.packet.segment.seq p6
  p8 ← TcpHeader.set_ack o.packet.segment.ack_seq p7
  TcpHeader.set_window_size o.packet.segment.window_size p8

-- The bytes, where there are any, and the size.
unfoldable pub put_payload : List ℕ → TcpPacket → Option TcpPacket
unfolding TcpHeader.write TcpHeader.set_data_size
put_payload bytes p =
    let written = TcpHeader.write 0 bytes p in
    (if ltb 0 (length bytes) then written else some p) >>= TcpHeader.set_data_size (length bytes)

-- The buffer that `sendPacket` gives to the IP layer. What its memory held is the first argument.
unfoldable pub encode : List ℕ → Out → Option TcpPacket
unfolding TcpHeader.create set_fields put_payload TcpHeader.fill_checksum
encode memory o =
    TcpHeader.create memory
    >>= set_fields o
    >>= put_payload o.packet.segment.payload
    >>= TcpHeader.fill_checksum

-- The flags that the receiver tests.
unfoldable pub read_flags : TcpPacket → Option Flags
unfolding TcpHeader.has_flag
read_flags p = do
  fin ← TcpHeader.has_flag 1 p
  syn ← TcpHeader.has_flag 2 p
  rst ← TcpHeader.has_flag 4 p
  psh ← TcpHeader.has_flag 8 p
  ack ← TcpHeader.has_flag 16 p
  urg ← TcpHeader.has_flag 32 p
  some (record { fin = fin; syn = syn; rst = rst; psh = psh; ack = ack; urg = urg })

-- What the receiver reads of a packet.
unfoldable pub decode : TcpPacket → Option Packet
unfolding TcpHeader.get_src_sock_addr TcpHeader.get_dest_sock_addr read_flags TcpHeader.get_seq
    TcpHeader.get_ack TcpHeader.get_window_size TcpHeader.payload
decode p = do
  src ← TcpHeader.get_src_sock_addr p
  dest ← TcpHeader.get_dest_sock_addr p
  flags ← read_flags p
  seq ← TcpHeader.get_seq p
  ack_seq ← TcpHeader.get_ack p
  window_size ← TcpHeader.get_window_size p
  bytes ← TcpHeader.payload p
  some (record {
    src = src;
    dest = dest;
    segment = record {
      flags = flags;
      seq = seq;
      ack_seq = ack_seq;
      window_size = window_size;
      payload = bytes;
    };
  })

-- The constructors on the way up: from the bytes that came to the TCP packet.
unfoldable pub arrive : Packet.Packet → Option Packet
unfolding Ip.of_packet TcpHeader.of_ip decode
arrive p = Ip.of_packet p >>= TcpHeader.of_ip >>= decode
