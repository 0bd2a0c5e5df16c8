-- ===== src/Net/UdpHeader.antt =====
-- `UdpPacket` of Dev/Main/src/Net/IPv4.h.
use trans_proxy.Base.{
  ℕ, ◌+◌, Bool, Option, none, some, List, ◌==◌, add_size, sub_size, if◌then◌else◌,
}
use trans_proxy.Map.{◌>>=◌}
use trans_proxy.Net.Packet.{span}
use trans_proxy.Net.Ip
use trans_proxy.Net.Ip.{IpPacket}

-- `IPPROTO_UDP`
abbrev pub udp_protocol : ℕ
udp_protocol = 17

-- `setDataSize`. The size is a `size_t`, which the field cuts to 16 bits.
unfoldable pub set_data_size : ℕ → IpPacket → Option IpPacket
unfolding Ip.write16 Ip.set_data_size
set_data_size size p = Ip.write16 4 (add_size size 8) p >>= Ip.set_data_size (add_size size 8)

-- The constructor over 1500 bytes that sets the headers up.
unfoldable pub create : List ℕ → Option IpPacket
unfolding Ip.create set_data_size
create memory = Ip.create memory 1500 udp_protocol >>= set_data_size 0

-- `isValid`, on an IP packet
unfoldable pub is_valid : IpPacket → Option Bool
unfolding Ip.protocol
is_valid p = Ip.protocol p >>= λ n. some (n == udp_protocol)

-- The constructor that takes an IP packet. `none` is the exception.
unfoldable pub of_ip : IpPacket → Option IpPacket
unfolding is_valid
of_ip p = is_valid p >>= λ valid. if valid then some p else none

unfoldable pub get_data_size : IpPacket → Option ℕ
unfolding Ip.read16
get_data_size p = Ip.read16 4 p >>= λ n. some (sub_size n 8)

-- `getDataSize` bytes from `dataPtr` on.
unfoldable pub payload : IpPacket → Option (List ℕ)
unfolding get_data_size span
payload p = get_data_size p >>= λ n. span (p.hdrlen + 8) n p.packet

unfoldable pub get_src_port : IpPacket → Option ℕ
unfolding Ip.read16
get_src_port p = Ip.read16 0 p

unfoldable pub set_src_port : ℕ → IpPacket → Option IpPacket
unfolding Ip.write16
set_src_port port p = Ip.write16 0 port p

unfoldable pub get_dest_port : IpPacket → Option ℕ
unfolding Ip.read16
get_dest_port p = Ip.read16 2 p

unfoldable pub set_dest_port : ℕ → IpPacket → Option IpPacket
unfolding Ip.write16
set_dest_port port p = Ip.write16 2 port p

unfoldable pub write : ℕ → List ℕ → IpPacket → Option IpPacket
unfolding Ip.write
write offset bytes p = Ip.write (add_size 8 offset) bytes p

-- `fillChecksum`. The checksum of the UDP header stays 0.
unfoldable pub fill_checksum : IpPacket → Option IpPacket
unfolding Ip.fill_checksum Ip.write16
fill_checksum p = Ip.fill_checksum p >>= Ip.write16 6 0
