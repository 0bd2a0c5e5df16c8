-- ===== src/Udp/Tests.antt =====
-- A datagram between two sockets.
use trans_proxy.Base.{
  ℕ, ◌≡◌, refl, true, none, some, [], ◌∷◌, length, take, replicate, length-replicate, arith,
}
use trans_proxy.Map.{Item, leaf, node, ◌>>=◌}
use trans_proxy.Map.Api
use trans_proxy.Net.Sock.{SockAddr, sock_key}
use trans_proxy.Net.Checksum.{sum, checksum}
use trans_proxy.Net.Packet.{Packet}
use trans_proxy.Net.Ip
use trans_proxy.Net.Ip.{IpPacket}
use trans_proxy.Net.Compare.{Agree-key}
use trans_proxy.Udp.{Udp, send, dispatch_packet}
use trans_proxy.Udp.Arrived.{InFields}
use trans_proxy.Udp.Trip.{datagram_lem}

abbrev from_addr : SockAddr
from_addr = record { ip = 3232235778; port = 5353 }

abbrev to_addr : SockAddr
to_addr = record { ip = 167772161; port = 53 }

-- The sender, which has no other socket, and the receiver, whose socket has the name 4.
abbrev sender : Udp
sender = record {
  sockets = record { named = true; root = leaf; size = 0 };
  held = λ i. record { addr = from_addr; id = 65535 };
}

abbrev bound : Item SockAddr
bound = record { id = 4; key = to_addr }

abbrev receiver : Udp
receiver = record {
  sockets = record { named = true; root = node none 1 leaf bound leaf; size = 1 };
  held = λ i. record { addr = to_addr; id = 1 };
}

from_addr-InFields : InFields from_addr
from_addr-InFields = record { ip_in = omega arith; port_in = omega arith }

to_addr-InFields : InFields to_addr
to_addr-InFields = record { ip_in = omega arith; port_in = omega arith }

found : Api.get receiver.sockets.root to_addr ≡ some bound
unfolding Api.get sock_key Agree-key
found = refl

datagram_lem_example :
    (p : IpPacket) × (w : Udp) × (send (replicate 1500 204) 9 to_addr (1 ∷ 2 ∷ 3 ∷ []) sender
      ≡ some (p, w))
    × (q : Packet) × (Ip.send_packet p ≡ some q)
    × (length q.bytes ≡ 31)
    × ((Ip.of_packet q >>= dispatch_packet receiver)
        ≡ some (some (record { socket = 4; src = from_addr; bytes = 1 ∷ 2 ∷ 3 ∷ [] })))
    × (checksum (sum (take 20 q.bytes)) ≡ some 0)
datagram_lem_example =
    datagram_lem (replicate 1500 204) 9 to_addr (1 ∷ 2 ∷ 3 ∷ []) sender receiver bound
      (length-replicate {A = ℕ} 1500 204) from_addr-InFields to_addr-InFields (omega arith) found
