-- ===== src/Net/TcpHeader.antt =====
-- `TcpPacket` of Dev/Main/src/Net/IPv4.h.
use trans_proxy.Base.{
  ℕ, ◌+◌, ◌*◌, ◌/◌, ◌%◌, ◌^◌, Bool, Option, none, some, List, ◌==◌, add_size, sub_size,
  if◌then◌else◌,
}
use trans_proxy.Map.{◌>>=◌}
use trans_proxy.Net.Sock.{SockAddr}
use trans_proxy.Net.Checksum.{sum, checksum}
use trans_proxy.Net.Packet.{byte_at, put_byte, put16, span}
use trans_proxy.Net.Ip
use trans_proxy.Net.Ip.{IpPacket, on_packet}

pub record TcpPacket : Type 0 where
  pub ip : IpPacket
  pub hdrlen : ℕ

-- `IPPROTO_TCP`
abbrev pub tcp_protocol : ℕ
tcp_protocol = 6

-- A step on the IP packet that leaves the size of the TCP header.
abbrev pub on_ip : (IpPacket → Option IpPacket) → TcpPacket → Option TcpPacket
on_ip f p = f p.ip >>= λ q. some (record p { ip = q })

-- `IpPacket::dataPtr()[i]`
unfoldable pub header_byte : ℕ → IpPacket → Option ℕ
unfolding byte_at
header_byte i p = byte_at (p.hdrlen + i) p.packet

unfoldable pub put_header : ℕ → ℕ → IpPacket → Option IpPacket
unfolding put_byte
put_header i v p = on_packet (put_byte (p.hdrlen + i) v) p

unfoldable pub set_data_size : ℕ → TcpPacket → Option TcpPacket
unfolding Ip.set_data_size
set_data_size size p = on_ip (Ip.set_data_size (add_size p.hdrlen size)) p

-- The constructor over 1500 bytes that sets both headers up.
unfoldable pub create : List ℕ → Option TcpPacket
unfolding Ip.create put_header Ip.write16 set_data_size
create memory = do
  p1 ← Ip.create memory 1500 tcp_protocol
  p2 ← put_header 12 80 p1
  p3 ← put_header 13 0 p2
  p4 ← Ip.write16 14 0 p3
  p5 ← Ip.write16 18 0 p4
  set_data_size 0 (record { ip = p5; hdrlen = 20 })

-- `isValid`, on an IP packet
unfoldable pub is_valid : IpPacket → Option Bool
unfolding Ip.protocol
is_valid p = Ip.protocol p >>= λ n. some (n == tcp_protocol)

-- The constructor that takes an IP packet. `none` is the exception.
unfoldable pub of_ip : IpPacket → Option TcpPacket
unfolding is_valid header_byte
of_ip p = do
  valid ← is_valid p
  b ← header_byte 12 p
  if valid then some (record { ip = p; hdrlen = b / 16 * 4 }) else none

unfoldable pub get_data_size : TcpPacket → Option ℕ
unfolding Ip.get_data_size
get_data_size p = Ip.get_data_size p.ip >>= λ n. some (sub_size n p.hdrlen)

-- `getDataSize` bytes from `dataPtr` on.
unfoldable pub payload : TcpPacket → Option (List ℕ)
unfolding get_data_size span
payload p = get_data_size p >>= λ n. span (p.ip.hdrlen + p.hdrlen) n p.ip.packet

unfoldable pub get_src_port : TcpPacket → Option ℕ
unfolding Ip.read16
get_src_port p = Ip.read16 0 p.ip

unfoldable pub set_src_port : ℕ → TcpPacket → Option TcpPacket
unfolding Ip.write16
set_src_port port p = on_ip (Ip.write16 0 port) p

unfoldable pub get_dest_port : TcpPacket → Option ℕ
unfolding Ip.read16
get_dest_port p = Ip.read16 2 p.ip

unfoldable pub set_dest_port : ℕ → TcpPacket → Option TcpPacket
unfolding Ip.write16
set_dest_port port p = on_ip (Ip.write16 2 port) p

unfoldable pub get_src_sock_addr : TcpPacket → Option SockAddr
unfolding Ip.get_src_addr get_src_port
get_src_sock_addr p = do
  ip ← Ip.get_src_addr p.ip
  port ← get_src_port p
  some (record { ip = ip; port = port })

unfoldable pub set_src_sock_addr : SockAddr → TcpPacket → Option TcpPacket
unfolding Ip.set_src_addr set_src_port
set_src_sock_addr a p = on_ip (Ip.set_src_addr a.ip) p >>= set_src_port a.port

unfoldable pub get_dest_sock_addr : TcpPacket → Option SockAddr
unfolding Ip.get_dest_addr get_dest_port
get_dest_sock_addr p = do
  ip ← Ip.get_dest_addr p.ip
  port ← get_dest_port p
  some (record { ip = ip; port = port })

unfoldable pub set_dest_sock_addr : SockAddr → TcpPacket → Option TcpPacket
unfolding Ip.set_dest_addr set_dest_port
set_dest_sock_addr a p = on_ip (Ip.set_dest_addr a.ip) p >>= set_dest_port a.port

unfoldable pub get_seq : TcpPacket → Option ℕ
unfolding Ip.read32
get_seq p = Ip.read32 4 p.ip

unfoldable pub set_seq : ℕ → TcpPacket → Option TcpPacket
unfolding Ip.write32
set_seq seq p = on_ip (Ip.write32 4 seq) p

unfoldable pub get_ack : TcpPacket → Option ℕ
unfolding Ip.read32
get_ack p = Ip.read32 8 p.ip

unfoldable pub set_ack : ℕ → TcpPacket → Option TcpPacket
unfolding Ip.write32
set_ack ack p = on_ip (Ip.write32 8 ack) p

-- `hasFlags` of one flag, which is a power of two.
unfoldable pub has_flag : ℕ → TcpPacket → Option Bool
unfolding header_byte
has_flag flag p = header_byte 13 p.ip >>= λ b. some (b / flag % 2 == 1)

unfoldable pub set_flags : ℕ → TcpPacket → Option TcpPacket
unfolding put_header
set_flags flags p = on_ip (put_header 13 flags) p

unfoldable pub get_window_size : TcpPacket → Option ℕ
unfolding Ip.read16
get_window_size p = Ip.read16 14 p.ip

unfoldable pub set_window_size : ℕ → TcpPacket → Option TcpPacket
unfolding Ip.write16
set_window_size bytes p = on_ip (Ip.write16 14 bytes) p

-- A write behind both headers.
unfoldable pub write : ℕ → List ℕ → TcpPacket → Option TcpPacket
unfolding Ip.write
write offset bytes p = on_ip (Ip.write (add_size p.hdrlen offset) bytes) p

-- The checksum over the addresses, the protocol, the size and the bytes behind the IP header.
unfoldable pub segment_sum : IpPacket → ℕ → Option ℕ
unfolding span sum
segment_sum p n = do
  ends ← span 12 8 p.packet
  bytes ← span p.hdrlen n p.packet
  some ((sum ends + tcp_protocol + n + sum bytes) % 2 ^ 32)

-- `fillChecksum`
unfoldable pub fill_checksum : TcpPacket → Option TcpPacket
unfolding Ip.fill_checksum Ip.get_data_size put16 segment_sum checksum
fill_checksum p = do
  q ← Ip.fill_checksum p.ip
  n ← Ip.get_data_size q
  zeroed ← on_packet (put16 (q.hdrlen + 16) 0) q
  c ← segment_sum zeroed n >>= checksum
  filled ← on_packet (put16 (q.hdrlen + 16) c) zeroed
  some (record p { ip = filled })
