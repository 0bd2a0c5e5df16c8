-- ===== src/Udp.antt =====
-- Dev/Main/src/TransProxy/UDP.h and UDP.cpp: sockets by their address, and the datagrams between them.
pub mod Layout
pub mod Arrived
pub mod Trip
mod Tests
use trans_proxy.Base.{ℕ, ◌+◌, ◌%◌, ◌^◌, Bool, Option, none, some, List, length, ◌==◌, if◌then◌else◌}
use trans_proxy.Map.{Item, ◌>>=◌}
use trans_proxy.Map.Api
use trans_proxy.Map.Api.{AvlMap}
use trans_proxy.Net.Sock.{SockAddr, sock_key}
use trans_proxy.Net.Packet.{Packet}
use trans_proxy.Net.Ip
use trans_proxy.Net.Ip.{IpPacket}
use trans_proxy.Net.UdpHeader

-- `_Socket`, less its listener: a datagram that comes names the socket.
pub record Socket : Type 0 where
  pub addr : SockAddr
  pub id : ℕ

-- `UDP`: the map of the sockets, whose items name them, and the sockets.
pub record Udp : Type 0 where
  pub sockets : AvlMap SockAddr
  pub held : ℕ → Socket

-- A call of `onReceived` of the listener of a socket.
pub record Received : Type 0 where
  pub socket : ℕ
  pub src : SockAddr
  pub bytes : List ℕ

abbrev put_socket : ℕ → Socket → (ℕ → Socket) → ℕ → Socket
put_socket self s held i = if i == self then s else held i

-- `bind`: a new socket, whose name is the first argument. `none` is the abort of the map.
unfoldable pub bind : ℕ → SockAddr → Udp → Option Udp
bind self addr u = Api.add u.sockets (record { id = self; key = addr }) >>= λ (_, sockets).
    some
      (record { sockets = sockets; held = put_socket self (record { addr = addr; id = 1 }) u.held })

-- `~_Socket`
unfoldable pub unbind : ℕ → Udp → Option Udp
unbind self u =
    Api.remove u.sockets (record { id = self; key = (u.held self).addr }) >>= λ (_, sockets).
    some (record u { sockets = sockets })

-- The calls of `send` before the bytes.
unfoldable pub set_fields : Socket → SockAddr → IpPacket → Option IpPacket
unfolding Ip.set_id Ip.set_src_addr UdpHeader.set_src_port Ip.set_dest_addr UdpHeader.set_dest_port
set_fields s addr p = do
  p1 ← Ip.set_id s.id p
  p2 ← Ip.set_src_addr s.addr.ip p1
  p3 ← UdpHeader.set_src_port s.addr.port p2
  p4 ← Ip.set_dest_addr addr.ip p3
  UdpHeader.set_dest_port addr.port p4

-- The buffer that `send` gives to the IP layer. What its memory held is the first argument.
unfoldable pub encode : List ℕ → Socket → SockAddr → List ℕ → Option IpPacket
unfolding UdpHeader.create set_fields UdpHeader.write UdpHeader.set_data_size
    UdpHeader.fill_checksum
encode memory s addr bytes =
    UdpHeader.create memory
    >>= set_fields s addr
    >>= UdpHeader.write 0 bytes
    >>= UdpHeader.set_data_size (length bytes)
    >>= UdpHeader.fill_checksum

-- `send`: the packet, and the sockets behind the call
unfoldable pub send : List ℕ → ℕ → SockAddr → List ℕ → Udp → Option (IpPacket × Udp)
unfolding encode
send memory self addr bytes u =
    let s = u.held self in
    let next = record s { id = (s.id + 1) % 2 ^ 16 } in
    encode memory s addr bytes >>= λ p. some (p, record u { held = put_socket self next u.held })

-- The call of the listener of a socket that was found.
unfoldable pub hand_over : Option (Item SockAddr) → IpPacket → Option (Option Received)
unfolding Ip.get_src_addr UdpHeader.get_src_port UdpHeader.payload
hand_over none q = some none
hand_over (some x) q = do
  ip ← Ip.get_src_addr q
  port ← UdpHeader.get_src_port q
  bytes ← UdpHeader.payload q
  some (some (record { socket = x.id; src = record { ip = ip; port = port }; bytes = bytes }))

-- The part of `dispatchPacket` behind the test of the protocol.
unfoldable pub receive : Udp → IpPacket → Option (Option Received)
unfolding UdpHeader.of_ip Ip.get_dest_addr UdpHeader.get_dest_port hand_over
receive u p = do
  q ← UdpHeader.of_ip p
  ip ← Ip.get_dest_addr q
  port ← UdpHeader.get_dest_port q
  hand_over (Api.get u.sockets.root (record { ip = ip; port = port })) q

-- `dispatchPacket`. `none` is an exception.
unfoldable pub dispatch_packet : Udp → IpPacket → Option (Option Received)
unfolding UdpHeader.is_valid receive
dispatch_packet u p =
    let taken = receive u p in UdpHeader.is_valid p >>= λ valid. if valid then taken else some none
