-- ===== src/Net/Ip.antt =====
-- `IpPacket` of Dev/Main/src/Net/IPv4.h.
use trans_proxy.Base.{
  ℕ, ◌+◌, ◌*◌, ◌/◌, ◌%◌, ◌^◌, Bool, Option, none, some, List, ◌==◌, add_size, sub_size,
  if◌then◌else◌,
}
use trans_proxy.Map.{◌>>=◌}
use trans_proxy.Net.Checksum.{sum, checksum}
use trans_proxy.Net.Packet
use trans_proxy.Net.Packet.{Packet, byte_at, put_byte, put16, span, index}

pub record IpPacket : Type 0 where
  pub packet : Packet
  pub hdrlen : ℕ

-- A step on the packet that leaves the size of the header.
abbrev pub on_packet : (Packet → Option Packet) → IpPacket → Option IpPacket
on_packet f p = f p.packet >>= λ q. some (record p { packet = q })

-- `setDataSize`. The argument is an `uint16_t`.
unfoldable pub set_data_size : ℕ → IpPacket → Option IpPacket
unfolding Packet.write16
set_data_size size p = on_packet (Packet.write16 2 (p.hdrlen + size % 2 ^ 16)) p

-- The constructor that sets a header up.
unfoldable pub create : List ℕ → ℕ → ℕ → Option IpPacket
unfolding put_byte Packet.write16 set_data_size
create memory size protocol = do
  p1 ← put_byte 0 69 (record { bytes = memory; size = size })
  p2 ← put_byte 1 0 p1
  p3 ← Packet.write16 6 0 p2
  p4 ← put_byte 8 128 p3
  p5 ← put_byte 9 protocol p4
  set_data_size 0 (record { packet = p5; hdrlen = 20 })

-- `isValid` and `getProtocol`, on the bytes of a packet
unfoldable pub is_valid : Packet → Option Bool
unfolding byte_at
is_valid p = byte_at 0 p >>= λ b. some (b / 16 == 4)

unfoldable pub get_protocol : Packet → Option ℕ
unfolding byte_at
get_protocol p = byte_at 9 p

-- The constructor that takes a packet as it came. `none` is the exception.
unfoldable pub of_packet : Packet → Option IpPacket
unfolding is_valid index
of_packet p = do
  valid ← is_valid p
  first ← index 0 p
  if valid then some (record { packet = p; hdrlen = first % 16 * 4 }) else none

unfoldable pub packet_size : IpPacket → Option ℕ
unfolding Packet.read16
packet_size p = Packet.read16 2 p.packet

-- `IPv4::sendPacket`: the bytes that the layer below is given.
unfoldable pub send_packet : IpPacket → Option Packet
unfolding packet_size span
send_packet p = do
  n ← packet_size p
  bytes ← span 0 n p.packet
  some (record { bytes = bytes; size = n })

unfoldable pub get_data_size : IpPacket → Option ℕ
unfolding packet_size
get_data_size p = packet_size p >>= λ n. some (sub_size n p.hdrlen)

unfoldable pub get_id : IpPacket → Option ℕ
unfolding Packet.read16
get_id p = Packet.read16 4 p.packet

unfoldable pub set_id : ℕ → IpPacket → Option IpPacket
unfolding Packet.write16
set_id id p = on_packet (Packet.write16 4 id) p

unfoldable pub protocol : IpPacket → Option ℕ
unfolding index
protocol p = index 9 p.packet

unfoldable pub get_src_addr : IpPacket → Option ℕ
unfolding Packet.read32
get_src_addr p = Packet.read32 12 p.packet

unfoldable pub set_src_addr : ℕ → IpPacket → Option IpPacket
unfolding Packet.write32
set_src_addr ip p = on_packet (Packet.write32 12 ip) p

unfoldable pub get_dest_addr : IpPacket → Option ℕ
unfolding Packet.read32
get_dest_addr p = Packet.read32 16 p.packet

unfoldable pub set_dest_addr : ℕ → IpPacket → Option IpPacket
unfolding Packet.write32
set_dest_addr ip p = on_packet (Packet.write32 16 ip) p

-- Reads and writes behind the header.
unfoldable pub read16 : ℕ → IpPacket → Option ℕ
unfolding Packet.read16
read16 offset p = Packet.read16 (add_size p.hdrlen offset) p.packet

unfoldable pub read32 : ℕ → IpPacket → Option ℕ
unfolding Packet.read32
read32 offset p = Packet.read32 (add_size p.hdrlen offset) p.packet

unfoldable pub read : ℕ → ℕ → IpPacket → Option (List ℕ)
unfolding Packet.read
read offset n p = Packet.read (add_size p.hdrlen offset) n p.packet

unfoldable pub write16 : ℕ → ℕ → IpPacket → Option IpPacket
unfolding Packet.write16
write16 offset v p = on_packet (Packet.write16 (add_size p.hdrlen offset) v) p

unfoldable pub write32 : ℕ → ℕ → IpPacket → Option IpPacket
unfolding Packet.write32
write32 offset v p = on_packet (Packet.write32 (add_size p.hdrlen offset) v) p

unfoldable pub write : ℕ → List ℕ → IpPacket → Option IpPacket
unfolding Packet.write
write offset bytes p = on_packet (Packet.write (add_size p.hdrlen offset) bytes) p

-- `fillChecksum`
unfoldable pub fill_checksum : IpPacket → Option IpPacket
unfolding put16 span sum checksum
fill_checksum p = do
  zeroed ← put16 10 0 p.packet
  header ← span 0 p.hdrlen zeroed
  c ← checksum (sum header)
  filled ← put16 10 c zeroed
  some (record p { packet = filled })
