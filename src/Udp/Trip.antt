-- ===== src/Udp/Trip.antt =====
-- The whole way of a datagram: laid out by `send`, dispatched by the receiver.
use mathlib.Core.List.{append-nil}
use trans_proxy.Base.{
  [], ℕ, ◌+◌, ◌/◌, ◌%◌, ◌^◌, ◌≤◌, ◌≡◌, refl, sym, ap, ◌∙◌, some, List, ◌∷◌, ◌++◌, length, take,
  arith,
}
use trans_proxy.Map.{Item, ◌>>=◌}
use trans_proxy.Map.Api
use trans_proxy.Net.Sock.{SockAddr, sock_key}
use trans_proxy.Net.Checksum.{sum, checksum}
use trans_proxy.Net.Packet.{Packet, bytes16}
use trans_proxy.Net.Ip
use trans_proxy.Net.Ip.{IpPacket}
use trans_proxy.Net.IpFilled.{ip_filled}
use trans_proxy.Net.UdpHeader
use trans_proxy.Udp.{Socket, Udp, encode, send, hand_over, receive, dispatch_packet}
use trans_proxy.Udp.Arrived.{
  InFields, arrived, bytes_back, dispatched, taken_up, dest_ip_back, src_ip_back, dest_port_back,
  src_port_back, cut_short,
}
use trans_proxy.Udp.Layout.{laid, fields_in, payload_laid}

udp_filled :
    (size : ℕ) (s : Socket) (addr : SockAddr) (a b c d : ℕ) (tail : List ℕ)
    → (a' b' : ℕ) × (UdpHeader.fill_checksum (laid size s addr a b c d tail)
        ≡ some (laid size s addr a' b' 0 0 tail))
      × (checksum (sum (take 20 (laid size s addr a' b' 0 0 tail).packet.bytes)) ≡ some 0)
unfolding UdpHeader.fill_checksum
udp_filled size s addr a b c d tail =
    let rest = bytes16 s.addr.port ++ (bytes16 addr.port ++ (bytes16 size ++ (c ∷ d ∷ tail))) in
    let (k, filled, verified) = ip_filled size s.id 17 s.addr.ip addr.ip a b rest (omega arith) in
    (k / 2 ^ 8, k % 256, ap (λ q. q >>= Ip.write16 6 0) filled, verified)

-- The bytes that `send` makes.
encoded :
    (s : Socket) (addr : SockAddr) (memory bytes : List ℕ)
    → 28 ≤ length memory
    → length bytes ≤ 1472
    → (a b : ℕ) × (tail : List ℕ) × (encode memory s addr bytes
        ≡ some (laid (8 + length bytes) s addr a b 0 0 (bytes ++ tail)))
      × (checksum
            (sum (take 20 (laid (8 + length bytes) s addr a b 0 0 (bytes ++ tail)).packet.bytes))
          ≡ some 0)
unfolding encode
encoded s addr memory bytes h short =
    let (a, b, c, d, rest, e1) = fields_in s addr memory h in
    let (tail, e2) = payload_laid bytes s addr a b c d rest short in
    let (a', b', e3, verified) = udp_filled (8 + length bytes) s addr a b c d (bytes ++ tail) in
    (
      a',
      b',
      tail,
      ap
            (λ x.
              x
              >>= UdpHeader.write 0 bytes
              >>= UdpHeader.set_data_size (length bytes)
              >>= UdpHeader.fill_checksum)
            e1
          ∙ ap (λ x. x >>= UdpHeader.fill_checksum) e2
          ∙ e3,
      verified,
    )

looked_up :
    (u : Udp) (p q : IpPacket) (dest : SockAddr)
    → UdpHeader.of_ip p ≡ some q
    → Ip.get_dest_addr q ≡ some dest.ip
    → UdpHeader.get_dest_port q ≡ some dest.port
    → receive u p ≡ hand_over (Api.get u.sockets.root dest) q
unfolding receive
looked_up u p q dest h1 h2 h3 = rw (h1, h2, h3) refl

handed_over :
    (q : IpPacket) (src : SockAddr) (x : Item SockAddr) (bytes : List ℕ)
    → Ip.get_src_addr q ≡ some src.ip
    → UdpHeader.get_src_port q ≡ some src.port
    → UdpHeader.payload q ≡ some bytes
    → hand_over (some x) q ≡ some (some (record { socket = x.id; src = src; bytes = bytes }))
unfolding hand_over
handed_over q src x bytes h1 h2 h3 = rw (h1, h2, h3) refl

received_by :
    (u : Udp) (p q : IpPacket) (src dest : SockAddr) (x : Item SockAddr) (bytes : List ℕ)
    → UdpHeader.of_ip p ≡ some q
    → Ip.get_dest_addr q ≡ some dest.ip
    → UdpHeader.get_dest_port q ≡ some dest.port
    → Api.get u.sockets.root dest ≡ some x
    → Ip.get_src_addr q ≡ some src.ip
    → UdpHeader.get_src_port q ≡ some src.port
    → UdpHeader.payload q ≡ some bytes
    → receive u p ≡ some (some (record { socket = x.id; src = src; bytes = bytes }))
received_by u p q src dest x bytes h1 h2 h3 h4 h5 h6 h7 =
    looked_up u p q dest h1 h2 h3 ∙ ap (λ o. hand_over o q) h4 ∙ handed_over q src x bytes h5 h6 h7

sent_by :
    (memory : List ℕ) (self : ℕ) (addr : SockAddr) (bytes : List ℕ) (v : Udp) (p : IpPacket)
    → encode memory (v.held self) addr bytes ≡ some p
    → (w : Udp) × (send memory self addr bytes v ≡ some (p, w)) × (w.sockets ≡ v.sockets)
unfolding send
sent_by memory self addr bytes v p h = rw h (_, refl, refl)

-- A datagram of at most 1472 bytes that a socket sends to an address, both of them fitting their
-- fields: whatever the memory of the buffer held, `send` succeeds, and the IP layer sends the two headers
-- and the bytes, and nothing more of the buffer. Where these come to a host with a socket at that
-- address, the listener of that socket is given the bytes and the address of the sender, and the checksum
-- of the IP header holds.
pub datagram_lem :
    (memory : List ℕ) (self : ℕ) (addr : SockAddr) (bytes : List ℕ) (v u : Udp) (x : Item SockAddr)
    → length memory ≡ 1500
    → InFields (v.held self).addr
    → InFields addr
    → length bytes ≤ 1472
    → Api.get u.sockets.root addr ≡ some x
    → (p : IpPacket) × (w : Udp) × (send memory self addr bytes v ≡ some (p, w))
      × (q : Packet) × (Ip.send_packet p ≡ some q)
      × (length q.bytes ≡ 28 + length bytes)
      × ((Ip.of_packet q >>= dispatch_packet u)
          ≡ some (some (record { socket = x.id; src = (v.held self).addr; bytes = bytes })))
      × (checksum (sum (take 20 q.bytes)) ≡ some 0)
datagram_lem memory self addr bytes v u x h from_fit to_fit short found =
    let s = v.held self in
    let (a, b, tail, e, verified) = encoded s addr memory bytes (omega arith) short in
    let size = 8 + length bytes in
    let n = 28 + length bytes in
    let big : 28 ≤ n = omega arith in
    let rest = bytes ++ [] in
    let p = laid size s addr a b 0 0 (bytes ++ tail) in
    let q = arrived n size s addr a b 0 0 rest in
    let (w, sent, _) = sent_by memory self addr bytes v p e in
    (
      p,
      w,
      sent,
      q.packet,
      cut_short s addr a b 0 0 bytes tail short,
      omega (arith, ap length (append-nil bytes)),
      sym (dispatched n size s addr a b 0 0 rest big u)
          ∙ received_by u q q s.addr addr x bytes (taken_up n size s addr a b 0 0 rest big)
              (dest_ip_back n size s addr a b 0 0 rest big to_fit)
              (dest_port_back n size s addr a b 0 0 rest big to_fit) found
              (src_ip_back n size s addr a b 0 0 rest big from_fit)
              (src_port_back n size s addr a b 0 0 rest big from_fit)
              (bytes_back n s addr a b 0 0 bytes [] big short),
      verified,
    )
